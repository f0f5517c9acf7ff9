-- ===== src/Api/Replication.antt =====
-- src/api/replication.rs: the handlers about replication jobs.
use moxui.Prelude.{ℕ, List, Str, codes, true, Option, some, Result}
use moxui.Prelude.Decimal.{decimal}
use moxui.Auth.Jwt.{Claims}
use moxui.Proxmox.Http.{Net}
use moxui.Proxmox.Types.{ReplicationJob}
use moxui.Proxmox.Types.Vm.{CreateReplicationJob}
use moxui.Proxmox.Client.Replication
use moxui.Api.Handler.{Handler, answer, ◌>>=◌, ◌>>◌, require_operator, lift, on_cluster}
use moxui.Api.Listing.{Listing, gather}

pub record ReplicationJobRow : Type 0 where
  pub cluster : Str
  pub id : ℕ
  pub enable : Option ℕ
  pub source_node : Option Str
  pub source_vmid : Option ℕ
  pub target : Option Str
  pub target_vmid : Option ℕ
  pub rate : Option ℕ
  pub schedule : Option Str
  pub comment : Option Str
  pub kind : Option Str

unfoldable pub replication_job_row : Str → ReplicationJob → ReplicationJobRow
replication_job_row cluster job = record {
  cluster = cluster;
  id = job.id;
  enable = job.enable;
  source_node = job.source_node;
  source_vmid = job.source_vmid;
  target = job.target;
  target_vmid = job.target_vmid;
  rate = job.rate;
  schedule = job.schedule;
  comment = job.comment;
  kind = job.kind;
}

pub record CreateReplicationRequest : Type 0 where
  pub source_node : Str
  pub target : Str
  pub target_vmid : Option ℕ
  pub rate : Option ℕ
  pub schedule : Str
  pub comment : Option Str

pub record ReplicationActionResponse : Type 0 where
  pub cluster : Str
  pub id : Str
  pub action : Str
  pub result : Str

unfoldable pub job_of : ℕ → CreateReplicationRequest → CreateReplicationJob
job_of vmid body = record {
  source_vmid = vmid;
  source_node = some body.source_node;
  target = body.target;
  target_vmid = body.target_vmid;
  rate = body.rate;
  schedule = body.schedule;
  comment = body.comment;
  enable = true;
}

module _ {W : Type 0} (net : Net W) where
  unfoldable pub list_replication_jobs :
      (Str → Result (List ReplicationJob) Str) → Handler W (Listing ReplicationJobRow)
  unfolding gather Replication.list_replication_jobs replication_job_row
  list_replication_jobs parse =
      gather replication_job_row (Replication.list_replication_jobs net parse)

  -- The answer's `status`, next to which stand the cluster and the id that were asked for.
  unfoldable pub get_replication_status :
      {T : Type 0} → (Str → Result T Str) → Str → ℕ → Handler W T
  unfolding on_cluster Replication.get_replication_status
  get_replication_status parse cluster id =
      on_cluster cluster (Replication.get_replication_status net parse id)

  -- `text` decodes a JSON text.
  module _ (text : Str → Result Str Str) where
    unfoldable pub create_replication_job :
        Claims → Str → ℕ → CreateReplicationRequest → Handler W ReplicationActionResponse
    unfolding require_operator on_cluster Replication.create_replication_job job_of
    create_replication_job claims cluster vmid body = do
      lift (require_operator net.status_text claims)
      result ← on_cluster cluster (Replication.create_replication_job net text (job_of vmid body))
      answer
          record { cluster = cluster; id = decimal vmid; action = codes "create"; result = result }

    unfoldable pub delete_replication_job : Claims → Str → ℕ → Handler W ReplicationActionResponse
    unfolding require_operator on_cluster Replication.delete_replication_job
    delete_replication_job claims cluster id = do
      lift (require_operator net.status_text claims)
      result ← on_cluster cluster (Replication.delete_replication_job net text id)
      answer record { cluster = cluster; id = decimal id; action = codes "delete"; result = result }
