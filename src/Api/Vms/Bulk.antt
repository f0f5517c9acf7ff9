-- ===== src/Api/Vms/Bulk.antt =====
-- src/api/vms.rs: the handlers that act on many VMs. `text` decodes a JSON text.
use moxui.Prelude.{ℕ, List, [], ◌∷◌, Str, codes, false, none, some, Result, ok, err}
use moxui.Error.{AppError, to_string}
use moxui.Auth.Jwt.{Claims}
use moxui.State.{client}
use moxui.Proxmox.Http.{Net}
use moxui.Proxmox.Call.{Call}
use moxui.Proxmox.Client.{post}
use moxui.Proxmox.Client.Vms
use moxui.Api.Handler.{
  Handler, answer, ◌>>=◌, ◌>>◌, name_of, replace, not_configured, require_operator, lift,
}
use moxui.Api.Vms.Actions.{status_path}

pub record BulkVmRef : Type 0 where
  pub cluster : Str
  pub node : Str
  pub vmid : ℕ

pub record BulkResultRow : Type 0 where
  pub cluster : Str
  pub node : Str
  pub vmid : ℕ
  pub action : Str
  pub status : Str
  pub message : Str

unfoldable pub result_row : Str → BulkVmRef → Result Str Str → BulkResultRow
result_row action vm r = record {
  cluster = vm.cluster;
  node = vm.node;
  vmid = vm.vmid;
  action = action;
  status = elim r [ ok upid ↦ codes "ok" | err message ↦ codes "error" ];
  message = elim r [ ok upid ↦ upid | err message ↦ message ];
}

-- The row of a call's result, which is an error's text where it failed.
unfoldable pub called_row : Str → BulkVmRef → Result Str AppError → BulkResultRow
unfolding result_row to_string
called_row action vm (ok upid) = result_row action vm (ok upid)
called_row action vm (err e) = result_row action vm (err (to_string e))

module _ {W : Type 0} where
  -- The future of one VM.
  unfoldable pub run_one : Str → (BulkVmRef → Call W Str) → BulkVmRef → Handler W BulkResultRow
  unfolding client replace not_configured result_row called_row
  run_one action call vm w cs = elim (client name_of cs vm.cluster) [
    | none ↦ (w, cs, some (ok (result_row action vm (err (not_configured vm.cluster)))))
    | some c ↦
        let (w', c', r) = call vm none w c in
        (
          w',
          replace vm.cluster c' cs,
          elim r [ none ↦ none | some a ↦ some (ok (called_row action vm a)) ],
        )
  ]

  -- `join_all`. The futures run one after the other here.
  unfoldable pub run_all :
      Str → (BulkVmRef → Call W Str) → List BulkVmRef → Handler W (List BulkResultRow)
  unfolding run_one
  run_all action call [] = answer []
  run_all action call (vm ∷ vms) = do
    row ← run_one action call vm
    rows ← run_all action call vms
    answer (row ∷ rows)

module _ {W : Type 0} (net : Net W) (text : Str → Result Str Str) where
  unfoldable pub bulk_action : Str → List BulkVmRef → Handler W (List BulkResultRow)
  unfolding run_all post status_path
  bulk_action action = run_all action (λ vm. post net text (status_path vm.node vm.vmid action))

  unfoldable pub bulk_start : Claims → List BulkVmRef → Handler W (List BulkResultRow)
  unfolding require_operator bulk_action
  bulk_start claims vms = do
    lift (require_operator net.status_text claims)
    bulk_action (codes "start") vms

  unfoldable pub bulk_stop : Claims → List BulkVmRef → Handler W (List BulkResultRow)
  unfolding require_operator bulk_action
  bulk_stop claims vms = do
    lift (require_operator net.status_text claims)
    bulk_action (codes "stop") vms

  unfoldable pub bulk_reboot : Claims → List BulkVmRef → Handler W (List BulkResultRow)
  unfolding require_operator bulk_action
  bulk_reboot claims vms = do
    lift (require_operator net.status_text claims)
    bulk_action (codes "reboot") vms

  unfoldable pub bulk_delete : Claims → List BulkVmRef → Handler W (List BulkResultRow)
  unfolding require_operator run_all Vms.delete_vm
  bulk_delete claims vms = do
    lift (require_operator net.status_text claims)
    run_all (codes "delete") (λ vm. Vms.delete_vm net text vm.node vm.vmid false false false) vms
