-- ===== src/Api/Tasks.antt =====
-- src/api/tasks.rs: the handlers about Proxmox tasks.
use moxui.Prelude.{[], ◌++◌, Str, codes, Result}
use moxui.Auth.Jwt.{Claims}
use moxui.Proxmox.Http.{Net}
use moxui.Proxmox.Client.{get, post_with_query}
use moxui.Proxmox.Client.Cluster
use moxui.Api.Handler.{Handler, ◌>>◌, require_operator, lift, on_cluster}

-- `parse` decodes what the cluster answers.
module _ {W T : Type 0} (net : Net W) (parse : Str → Result T Str) where
  unfoldable pub task_status : Str → Str → Str → Handler W T
  unfolding on_cluster Cluster.task_status
  task_status cluster node upid = on_cluster cluster (Cluster.task_status net parse node upid)

  unfoldable pub task_log : Str → Str → Str → Handler W T
  unfolding on_cluster get
  task_log cluster node upid =
      on_cluster cluster
        (get net parse (codes "nodes/" ++ node ++ codes "/tasks/" ++ upid ++ codes "/log"))

  unfoldable pub task_delete : Claims → Str → Str → Str → Handler W T
  unfolding require_operator on_cluster post_with_query
  task_delete claims cluster node upid = do
    lift (require_operator net.status_text claims)
    on_cluster cluster
        (post_with_query net parse (codes "nodes/" ++ node ++ codes "/tasks/" ++ upid) [])
