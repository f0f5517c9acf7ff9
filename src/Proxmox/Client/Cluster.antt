-- ===== src/Proxmox/Client/Cluster.antt =====
-- src/proxmox/client.rs: the calls about a cluster, its networks and its tasks.
use moxui.Prelude.{◌++◌, Str, codes, Result}
use moxui.Proxmox.Http.{Net}
use moxui.Proxmox.Call.{Call, done, ◌>>◌, timeout}
use moxui.Proxmox.Client.{
  get, post, put_json, delete_json, list_vms_timeout_secs, ping_timeout_secs,
}

-- `text` decodes a JSON text.
module _ {W : Type 0} (net : Net W) (text : Str → Result Str Str) where
  unfoldable pub delete_task : Str → Str → Call W Str
  unfolding delete_json
  delete_task node upid = delete_json net text (codes "nodes/" ++ node ++ codes "/tasks/" ++ upid)

  unfoldable pub network_config_update : Str → Str → Call W Str
  unfolding put_json
  network_config_update node value =
      put_json net text (codes "nodes/" ++ node ++ codes "/network") value

  unfoldable pub network_config_apply : Str → Call W Str
  unfolding post
  network_config_apply node = post net text (codes "nodes/" ++ node ++ codes "/network")

module _ {W : Type 0} (net : Net W) where
  module _ {T : Type 0} (parse : Str → Result T Str) where
    unfoldable pub task_status : Str → Str → Call W T
    unfolding get
    task_status node upid =
        get net parse (codes "nodes/" ++ node ++ codes "/tasks/" ++ upid ++ codes "/status")

    unfoldable pub task_log : Str → Str → Call W T
    unfolding get
    task_log node upid =
        get net parse (codes "nodes/" ++ node ++ codes "/tasks/" ++ upid ++ codes "/log")

    unfoldable pub cluster_status : Call W T
    unfolding get
    cluster_status = get net parse (codes "cluster/status")

    unfoldable pub cluster_config_info : Call W T
    unfolding get
    cluster_config_info = get net parse (codes "cluster/config")

    unfoldable pub cluster_options : Call W T
    unfolding get
    cluster_options = get net parse (codes "cluster/options")

    unfoldable pub cluster_log : Call W T
    unfolding get
    cluster_log = get net parse (codes "cluster/log")

    unfoldable pub cluster_tasks : Call W T
    unfolding get
    cluster_tasks = get net parse (codes "cluster/tasks")

    unfoldable pub list_networks : Str → Call W T
    unfolding get timeout
    list_networks node =
        timeout net list_vms_timeout_secs (codes "list_networks")
          (get net parse (codes "nodes/" ++ node ++ codes "/network"))

    unfoldable pub ping : Call W (Unit {0})
    unfolding get timeout
    ping = do
      timeout net ping_timeout_secs (codes "ping") (get net parse (codes "version"))
      done tt
