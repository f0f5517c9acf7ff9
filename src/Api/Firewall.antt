-- ===== src/Api/Firewall.antt =====
-- src/api/firewall.rs: the handler about firewall rules.
use moxui.Prelude.{Str, codes, Result}
use moxui.Proxmox.Http.{Net}
use moxui.Api.Handler.{Handler}
use moxui.Api.Gathered.{Gathered, pass_on}

module _ {W T : Type 0} (net : Net W) (parse : Str → Result T Str) where
  unfoldable pub firewall_rules : Handler W (Gathered T)
  unfolding pass_on
  firewall_rules = pass_on net parse (codes "cluster/firewall/rules")
