-- ===== src/Dashboards.antt =====
-- src/dashboard_custom/mod.rs: the dashboards of the users, in memory and in a JSON file.
pub mod Stored
use moxui.Prelude.{
  ℕ, List, [], ◌∷◌, ◌++◌, Str, codes, Bool, true, false, Option, none, some, unwrap_or,
  if◌then◌else◌, Result, ok, err,
}
use moxui.Prelude.Map
use moxui.Prelude.Map.{Map}

pub record WidgetConfig : Type 0 where
  pub id : Str
  pub widget_type : Str
  pub title : Option Str
  pub x : ℕ
  pub y : ℕ
  pub width : ℕ
  pub height : ℕ

pub record LayoutRow : Type 0 where
  pub row : ℕ
  pub widgets : List Str

pub record CustomDashboardConfig : Type 0 where
  pub user_id : Str
  pub widgets : List WidgetConfig
  pub layout : List LayoutRow

-- The file of the service, by what `tokio::fs` does in the world `W`, and `serde_json` on its text.
pub record Files (W : Type 0) : Type 0 where
  pub exists : W → Bool
  pub read_to_string : W → Result Str Str
  pub create_dir_all : W → W × Result (Unit {0}) Str
  pub write : Str → W → W × Result (Unit {0}) Str
  pub from_str : Str → Result (Map CustomDashboardConfig) Str
  pub to_string_pretty : Map CustomDashboardConfig → Result Str Str

abbrev pub Dashboards : Type 0
Dashboards = Map CustomDashboardConfig

abbrev pub cluster_health : WidgetConfig
cluster_health = record {
  id = codes "cluster-health-1";
  widget_type = codes "cluster_health";
  title = some (codes "Cluster Health");
  x = 1;
  y = 1;
  width = 6;
  height = 2;
}

abbrev pub vm_list : WidgetConfig
vm_list = record {
  id = codes "vm-list-1";
  widget_type = codes "vm_list";
  title = some (codes "VM Overview");
  x = 7;
  y = 1;
  width = 6;
  height = 2;
}

abbrev pub default_dashboard : Str → CustomDashboardConfig
default_dashboard user_id = record {
  user_id = user_id;
  widgets = cluster_health ∷ vm_list ∷ [];
  layout = record { row = 1; widgets = codes "cluster-health-1" ∷ codes "vm-list-1" ∷ [] } ∷ [];
}

unfoldable pub get_dashboard : Str → Dashboards → CustomDashboardConfig
unfolding Map.get
get_dashboard user_id dashboards =
    unwrap_or (Map.get user_id dashboards) (default_dashboard user_id)

module _ {W : Type 0} (fs : Files W) where
  -- A file that cannot be read or does not parse counts as an empty one.
  unfoldable pub new : W → Dashboards
  new w =
      if fs.exists w
      then elim (fs.read_to_string w) [
        | err e ↦ []
        | ok content ↦ elim (fs.from_str content) [ ok dashboards ↦ dashboards | err e ↦ [] ]
      ]
      else []

  unfoldable pub persist : Dashboards → W → W × Result (Unit {0}) Str
  persist dashboards w =
      let (w', created) = fs.create_dir_all w in
      elim created [
        | err e ↦ (w', err (codes "Failed to create data directory: " ++ e))
        | ok u ↦ elim (fs.to_string_pretty dashboards) [
          | err e ↦ (w', err (codes "Failed to serialize dashboards: " ++ e))
          | ok content ↦
              let (w'', written) = fs.write content w' in
              (
                w'',
                elim written [
                  | err e ↦ err (codes "Failed to write dashboard config: " ++ e)
                  | ok u ↦ ok tt
                ],
              )
        ]
      ]

  unfoldable pub save_dashboard :
      Str → CustomDashboardConfig → Dashboards → W → Dashboards × W × Result (Unit {0}) Str
  unfolding Map.insert persist
  save_dashboard user_id config dashboards w =
      let dashboards' = Map.insert user_id config dashboards in
      let (w', r) = persist dashboards' w in (dashboards', w', r)

  unfoldable pub delete_dashboard : Str → Dashboards → W → Dashboards × W × Result (Unit {0}) Str
  unfolding Map.remove persist
  delete_dashboard user_id dashboards w =
      let dashboards' = Map.remove user_id dashboards in
      let (w', r) = persist dashboards' w in (dashboards', w', r)
