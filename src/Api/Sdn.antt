-- ===== src/Api/Sdn.antt =====
-- src/api/sdn.rs: the handlers about software-defined networks.
use moxui.Prelude.{Str, codes, Result}
use moxui.Proxmox.Http.{Net}
use moxui.Api.Handler.{Handler}
use moxui.Api.Gathered.{Gathered, pass_on}

module _ {W T : Type 0} (net : Net W) (parse : Str → Result T Str) where
  unfoldable pub sdn_zones : Handler W (Gathered T)
  unfolding pass_on
  sdn_zones = pass_on net parse (codes "cluster/sdn/zones")

  unfoldable pub sdn_vnets : Handler W (Gathered T)
  unfolding pass_on
  sdn_vnets = pass_on net parse (codes "cluster/sdn/vnets")
