-- ===== src/Api/Ceph.antt =====
-- src/api/ceph.rs: the handlers about Ceph.
use moxui.Prelude.{Str, codes, Result}
use moxui.Proxmox.Http.{Net}
use moxui.Api.Handler.{Handler}
use moxui.Api.Gathered.{Gathered, pass_on}

module _ {W T : Type 0} (net : Net W) (parse : Str → Result T Str) where
  unfoldable pub ceph_status : Handler W (Gathered T)
  unfolding pass_on
  ceph_status = pass_on net parse (codes "cluster/ceph/status")

  unfoldable pub ceph_pools : Handler W (Gathered T)
  unfolding pass_on
  ceph_pools = pass_on net parse (codes "cluster/ceph/pool")
