-- ===== src/Api/Dashboard.antt =====
-- src/api/dashboard.rs: what the dashboard collects. The sum of two `f64`s is a parameter, and the
-- integers wrap, as they do in a release build.
pub mod Handlers
pub mod Shown
use moxui.Prelude.{
  ℕ, ◌+◌, ◌^◌, ◌%◌, length, List, [], ◌∷◌, ◌++◌, Str, codes, str_eq, Bool, true, false, Option,
  none, some, if◌then◌else◌, Result, ok, err,
}
use moxui.Error.{AppError, to_string}
use moxui.Proxmox.Http.{Net}
use moxui.Proxmox.Types.{F64, VmResource, StorageResource}
use moxui.Proxmox.Call.{Call, attempt, done, ◌>>=◌}
use moxui.Proxmox.Client.{self, get}

pub record DashboardTotals : Type 0 where
  pub vms_total : ℕ
  pub vms_running : ℕ
  pub vms_stopped : ℕ
  pub lxcs_total : ℕ
  pub lxcs_running : ℕ
  pub lxcs_stopped : ℕ
  pub storage_pools : ℕ
  pub allocated_cpus : F64
  pub allocated_memory : ℕ

-- The counts of one cluster are its `totals`.
pub record ClusterDashboard : Type 0 where
  pub name : Str
  pub reachable : Bool
  pub version : Option Str
  pub release : Option Str
  pub totals : DashboardTotals
  pub error : Option Str

pub record DashboardResponse : Type 0 where
  pub clusters : List ClusterDashboard
  pub totals : DashboardTotals

pub record Version : Type 0 where
  pub version : Str
  pub release : Str
  pub repoid : Str

abbrev pub nothing : DashboardTotals
nothing = record {
  vms_total = 0;
  vms_running = 0;
  vms_stopped = 0;
  lxcs_total = 0;
  lxcs_running = 0;
  lxcs_stopped = 0;
  storage_pools = 0;
  allocated_cpus = 0;
  allocated_memory = 0;
}

unfoldable pub unreachable : Str → AppError → ClusterDashboard
unfolding to_string
unreachable name e = record {
  name = name;
  reachable = false;
  version = none;
  release = none;
  totals = nothing;
  error = some (to_string e);
}

abbrev pub add_u32 : ℕ → ℕ → ℕ
add_u32 m n = (m + n) % 2 ^ 32

abbrev pub tick : Bool → ℕ → ℕ
tick b n = if b then add_u32 n 1 else n

unfoldable pub count_vm : Str → DashboardTotals → DashboardTotals
count_vm status acc = record acc {
  vms_total = add_u32 acc.vms_total 1;
  vms_running = tick (str_eq status (codes "running")) acc.vms_running;
  vms_stopped = tick (str_eq status (codes "stopped")) acc.vms_stopped;
}

unfoldable pub count_lxc : Str → DashboardTotals → DashboardTotals
count_lxc status acc = record acc {
  lxcs_total = add_u32 acc.lxcs_total 1;
  lxcs_running = tick (str_eq status (codes "running")) acc.lxcs_running;
  lxcs_stopped = tick (str_eq status (codes "stopped")) acc.lxcs_stopped;
}

module _ (add_f64 : F64 → F64 → F64) where
  unfoldable pub allocate : VmResource → DashboardTotals → DashboardTotals
  allocate r acc = record acc {
    allocated_cpus = elim r.cpus [
      | none ↦ acc.allocated_cpus
      | some n ↦ add_f64 acc.allocated_cpus n
    ];
    allocated_memory = elim r.maxmem [
      | none ↦ acc.allocated_memory
      | some n ↦ (acc.allocated_memory + n) % 2 ^ 64
    ];
  }

  -- The loop over a cluster's resources.
  unfoldable pub count_resources : List VmResource → DashboardTotals → DashboardTotals
  unfolding allocate count_vm count_lxc
  count_resources [] acc = acc
  count_resources (r ∷ rs) acc = count_resources rs (
      if str_eq r.kind (codes "qemu")
      then allocate r (count_vm r.status acc)
      else if str_eq r.kind (codes "lxc")
      then allocate r (count_lxc r.status acc)
      else acc)

  -- The two reads that `join` runs together run one after the other here.
  module _ {W : Type 0} (net : Net W) (parse_version : Str → Result Version Str)
      (parse_vms : Str → Result (List VmResource) Str)
      (parse_storages : Str → Result (List StorageResource) Str) where
    unfoldable pub collect_reachable : Str → Version → Call W ClusterDashboard
    unfolding get attempt count_resources
    collect_reachable name version = do
      read ← attempt (get net parse_vms (codes "cluster/resources?type=vm"))
      pools ← attempt (get net parse_storages (codes "storage"))
      resources ← (λ d w c. (w, c, some read))
      storages ← (λ d w c. (w, c, some pools))
      done record {
        name = name;
        reachable = true;
        version = some version.version;
        release = some version.release;
        totals = record (count_resources resources nothing) {
          storage_pools = length storages % 2 ^ 32;
        };
        error = none;
      }

    unfoldable pub collect_cluster_dashboard : Call W ClusterDashboard
    unfolding get attempt unreachable collect_reachable
    collect_cluster_dashboard = do
      c ← self net
      answered ← attempt (get net parse_version (codes "version"))
      elim answered [
        | ok version ↦ collect_reachable c.config.name version
        | err e ↦ done (unreachable c.config.name e)
      ]

  unfoldable pub add_totals : DashboardTotals → DashboardTotals → DashboardTotals
  add_totals t d = record {
    vms_total = add_u32 t.vms_total d.vms_total;
    vms_running = add_u32 t.vms_running d.vms_running;
    vms_stopped = add_u32 t.vms_stopped d.vms_stopped;
    lxcs_total = add_u32 t.lxcs_total d.lxcs_total;
    lxcs_running = add_u32 t.lxcs_running d.lxcs_running;
    lxcs_stopped = add_u32 t.lxcs_stopped d.lxcs_stopped;
    storage_pools = add_u32 t.storage_pools d.storage_pools;
    allocated_cpus = add_f64 t.allocated_cpus d.allocated_cpus;
    allocated_memory = (t.allocated_memory + d.allocated_memory) % 2 ^ 64;
  }

  -- The loop over the clusters' results.
  unfoldable pub merge_dashboards :
      List (Str × Result ClusterDashboard AppError) → DashboardResponse → DashboardResponse
  unfolding unreachable add_totals
  merge_dashboards [] acc = acc
  merge_dashboards ((name, ok d) ∷ results) acc =
      merge_dashboards results
        record { clusters = acc.clusters ++ (d ∷ []); totals = add_totals acc.totals d.totals }
  merge_dashboards ((name, err e) ∷ results) acc =
      merge_dashboards results record acc { clusters = acc.clusters ++ (unreachable name e ∷ []) }
