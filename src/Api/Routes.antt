-- ===== src/Api/Routes.antt =====
-- src/api/mod.rs: the patterns of the routes, by the guards in front of them. Of a route only the
-- pattern matters here; `:name` stands for one segment of the path.
pub mod Scope
use moxui.Prelude.{
  ℕ, map, List, [], ◌∷◌, Str, codes, Bool, true, false, not, if◌then◌else◌, ◌==◌, keep_if,
}
use moxui.Auth.Middleware.{split_slash, is_empty}

-- Behind require_auth alone.
unfoldable pub protected : List Str
protected =
    codes "/api/v1/auth/me"
    ∷ codes "/api/v1/dashboard"
    ∷ codes "/api/v1/dashboard/custom"
    ∷ codes "/api/v1/dashboard/custom/widget-types"
    ∷ codes "/api/v1/audit"
    ∷ codes "/api/v1/vms"
    ∷ codes "/api/v1/vms/bulk/start"
    ∷ codes "/api/v1/vms/bulk/stop"
    ∷ codes "/api/v1/vms/bulk/reboot"
    ∷ codes "/api/v1/vms/bulk/delete"
    ∷ codes "/api/v1/lxcs"
    ∷ codes "/api/v1/storages"
    ∷ codes "/api/v1/networks"
    ∷ codes "/api/v1/hagroups"
    ∷ codes "/api/v1/hagroups/:cluster/:group"
    ∷ codes "/api/v1/replication"
    ∷ codes "/api/v1/auth/2fa/setup"
    ∷ codes "/api/v1/auth/2fa/verify"
    ∷ codes "/api/v1/auth/2fa/disable"
    ∷ codes "/api/v1/auth/webauthn/register/start"
    ∷ codes "/api/v1/auth/webauthn/register/complete"
    ∷ codes "/api/v1/users"
    ∷ codes "/api/v1/users/:username"
    ∷ codes "/api/v1/ceph/status"
    ∷ codes "/api/v1/ceph/pools"
    ∷ codes "/api/v1/firewall/rules"
    ∷ codes "/api/v1/sdn/zones"
    ∷ codes "/api/v1/sdn/vnets"
    ∷ codes "/api/v1/hagroups/status"
    ∷ codes "/api/v1/networks/vlans"
    ∷ codes "/api/v1/cluster/status"
    ∷ codes "/api/v1/cluster/config"
    ∷ codes "/api/v1/cluster/options"
    ∷ codes "/api/v1/cluster/log"
    ∷ codes "/api/v1/cluster/tasks"
    ∷ []

-- Behind require_auth and require_cluster_access.
unfoldable pub cluster_scoped : List Str
cluster_scoped =
    codes "/api/v1/vms/:cluster/:vmid"
    ∷ codes "/api/v1/vms/:cluster/:node/:vmid/:action"
    ∷ codes "/api/v1/vms/:cluster/:node/:vmid/migrate"
    ∷ codes "/api/v1/vms/:cluster/:node/create"
    ∷ codes "/api/v1/vms/:cluster/:node/:vmid/clone"
    ∷ codes "/api/v1/vms/:cluster/:node/:vmid/config"
    ∷ codes "/api/v1/vms/:cluster/:node/:vmid/snapshot"
    ∷ codes "/api/v1/vms/:cluster/:node/:vmid/snapshot/:snapname"
    ∷ codes "/api/v1/vms/:cluster/:node/:vmid/snapshot/:snapname/rollback"
    ∷ codes "/api/v1/vms/:cluster/:node/:vmid/backup"
    ∷ codes "/api/v1/vms/:cluster/:node/:vmid/backups"
    ∷ codes "/api/v1/vms/:cluster/:node/:vmid/resize-disk"
    ∷ codes "/api/v1/lxcs/:cluster/:node/:vmid"
    ∷ codes "/api/v1/lxcs/:cluster/:node/:vmid/:action"
    ∷ codes "/api/v1/lxcs/:cluster/:node/:vmid/delete"
    ∷ codes "/api/v1/storages/:cluster/:node/:storage/content"
    ∷ codes "/api/v1/storages/:cluster/:node/:storage/upload"
    ∷ codes "/api/v1/storages/:cluster/:node/:storage/content/:volid"
    ∷ codes "/api/v1/networks/:cluster/:node"
    ∷ codes "/api/v1/tasks/:cluster/:node/:upid"
    ∷ codes "/api/v1/vms/:cluster/:node/:vmid/vnc/ticket"
    ∷ codes "/api/v1/vms/:cluster/:node/:vmid/vnc/ws"
    ∷ codes "/api/v1/replication/:cluster/:vmid"
    ∷ codes "/api/v1/replication/:cluster/:vmid/delete"
    ∷ codes "/api/v1/replication/:cluster/:vmid/status"
    ∷ codes "/api/v1/vms/:cluster/:node/:vmid/template"
    ∷ codes "/api/v1/vms/:cluster/:node/:vmid/sendkey"
    ∷ codes "/api/v1/vms/:cluster/:node/:vmid/rrddata"
    ∷ codes "/api/v1/tasks/:cluster/:node/:upid/log"
    ∷ codes "/api/v1/tasks/:cluster/:node/:upid/delete"
    ∷ codes "/api/v1/lxcs/:cluster/:node/create"
    ∷ codes "/api/v1/lxcs/:cluster/:node/:vmid/config"
    ∷ codes "/api/v1/networks/:cluster/:node/config"
    ∷ codes "/api/v1/networks/:cluster/:node/apply"
    ∷ []

pub data Segment : Type 0 where
  literal : Str → Segment
  param : Str → Segment

segment_of : Str → Segment
segment_of [] = literal []
segment_of (b ∷ s) = if b == b':' then param s else literal (b ∷ s)

unfoldable pub segments_of : Str → List Segment
unfolding segment_of split_slash
segments_of pattern = map segment_of (keep_if (λ s. not (is_empty s)) (split_slash pattern))
