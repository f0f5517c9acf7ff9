-- ===== src/Proxmox/Client/Replication.antt =====
-- src/proxmox/client.rs: the calls about replication jobs.
use moxui.Prelude.{ℕ, List, [], ◌∷◌, ◌++◌, Str, codes, Option, some, Result}
use moxui.Prelude.Decimal.{decimal}
use mathlib.Core.Option
use moxui.Proxmox.Http.{Net}
use moxui.Proxmox.Call.{Call}
use moxui.Proxmox.Types.{flag, present}
use moxui.Proxmox.Types.Vm.{CreateReplicationJob, UpdateReplicationJob}
use moxui.Proxmox.Client.{get, post_with_query}

unfoldable pub create_fields : CreateReplicationJob → List (Str × Option Str)
unfolding flag
create_fields job =
    (codes "source-vmid", some (decimal job.source_vmid))
    ∷ (codes "target", some job.target)
    ∷ (codes "schedule", some job.schedule)
    ∷ (codes "enable", some (flag job.enable))
    ∷ (codes "source-node", job.source_node)
    ∷ (codes "target-vmid", Option.map decimal job.target_vmid)
    ∷ (codes "rate", Option.map decimal job.rate)
    ∷ (codes "comment", job.comment)
    ∷ []

unfoldable pub update_fields : UpdateReplicationJob → List (Str × Option Str)
unfolding flag
update_fields job =
    (codes "enable", Option.map flag job.enable)
    ∷ (codes "rate", Option.map decimal job.rate)
    ∷ (codes "schedule", job.schedule)
    ∷ (codes "comment", job.comment)
    ∷ []

-- `text` decodes a JSON text.
module _ {W : Type 0} (net : Net W) (text : Str → Result Str Str) where
  unfoldable pub create_replication_job : CreateReplicationJob → Call W Str
  unfolding post_with_query present create_fields
  create_replication_job job =
      post_with_query net text (codes "cluster/replication") (present (create_fields job))

  unfoldable pub update_replication_job : ℕ → UpdateReplicationJob → Call W Str
  unfolding post_with_query present update_fields
  update_replication_job id job =
      post_with_query net text (codes "cluster/replication/" ++ decimal id)
        (present (update_fields job))

  unfoldable pub delete_replication_job : ℕ → Call W Str
  unfolding post_with_query
  delete_replication_job id =
      post_with_query net text (codes "cluster/replication/" ++ decimal id) []

module _ {W : Type 0} (net : Net W) where
  module _ {T : Type 0} (parse : Str → Result T Str) where
    unfoldable pub list_replication_jobs : Call W T
    unfolding get
    list_replication_jobs = get net parse (codes "cluster/replication")

    unfoldable pub get_replication_status : ℕ → Call W T
    unfolding get
    get_replication_status id =
        get net parse (codes "cluster/replication/" ++ decimal id ++ codes "/log")
