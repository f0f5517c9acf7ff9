-- ===== src/Proxmox/Client/Twins.antt =====
-- src/proxmox/client.rs: operations that are told apart by their names only.
use moxui.Prelude.{ℕ, Str, Option, none, Result, ◌≡◌, refl}
use moxui.Proxmox.Http.{Net}
use moxui.Proxmox.Call.{ProxmoxClient}
use moxui.Proxmox.Types.{present}
use moxui.Proxmox.Types.Vm.{UpdateReplicationJob}
use moxui.Proxmox.Client.Replication.{delete_replication_job, update_replication_job, update_fields}

abbrev pub no_change : UpdateReplicationJob
no_change = record { enable = none; rate = none; schedule = none; comment = none }

module _ {W : Type 0} (net : Net W) (text : Str → Result Str Str) where
  -- To delete a replication job is the same call as to update it with no field: one POST to the job's
  -- path, without a parameter, which says nothing of a deletion.
  pub delete_replication_job_lem :
      (id : ℕ) (d : Option ℕ) (w : W) (c : ProxmoxClient)
      → delete_replication_job net text id d w c
        ≡ update_replication_job net text id no_change d w c
  unfolding delete_replication_job update_replication_job update_fields present
  delete_replication_job_lem id d w c = refl
