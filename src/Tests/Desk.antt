-- ===== src/Tests/Desk.antt =====
-- src/dashboard_custom/mod.rs with a file that keeps one empty dashboard.
use moxui.Prelude.{
  length, take, drop, List, [], ◌∷◌, ◌++◌, Str, codes, str_eq, Option, none, some, is_some,
  if◌then◌else◌, Result, ok, err, ◌≡◌, refl, ap, arith,
}
use moxui.Prelude.Map
use moxui.Dashboards.{
  Files, CustomDashboardConfig, Dashboards, WidgetConfig, LayoutRow, get_dashboard, new, persist,
  save_dashboard,
}
use moxui.Dashboards.Stored.{ReadsBack, new-save_dashboard}

abbrev bare : Str → CustomDashboardConfig
bare user_id = record { user_id = user_id; widgets = []; layout = [] }

-- The length of the key, the key, and the id of the user.
abbrev written : Str → Str → List WidgetConfig → List LayoutRow → Dashboards → Result Str Str
written k user_id [] [] [] = ok (length k ∷ k ++ user_id)
written k user_id widgets layout rest = err (codes "not bare")

abbrev to_text : Dashboards → Result Str Str
to_text [] = err (codes "empty")
to_text ((k, config) ∷ rest) = written k config.user_id config.widgets config.layout rest

abbrev from_text : Str → Result Dashboards Str
from_text [] = err (codes "empty")
from_text (n ∷ s) = ok ((take n s, bare (drop n s)) ∷ [])

-- The world is the content of the file, if there is one.
abbrev file : Files (Option Str)
file = record {
  exists = λ w. is_some w;
  read_to_string = λ w. elim w [ none ↦ err (codes "missing") | some s ↦ ok s ];
  create_dir_all = λ w. (w, ok tt);
  write = λ s w. (some s, ok tt);
  from_str = from_text;
  to_string_pretty = to_text;
}

take_front : (k u : Str) → take (length k) (k ++ u) ≡ k
take_front [] u = refl
take_front (b ∷ k) u = ap (λ s. b ∷ s) (take_front k u)

drop_front : (k u : Str) → drop (length k) (k ++ u) ≡ u
drop_front [] u = refl
drop_front (b ∷ k) u = drop_front k u

written-read :
    (k user_id : Str) (widgets : List WidgetConfig) (layout : List LayoutRow) (rest : Dashboards)
    (content : Str)
    → written k user_id widgets layout rest ≡ ok content
    → from_text content
      ≡ ok ((k, record { user_id = user_id; widgets = widgets; layout = layout }) ∷ rest)
written-read k user_id [] [] [] content h =
    let same : content ≡ length k ∷ k ++ user_id = ground (arith, h) in
    rw (same, take_front k user_id, drop_front k user_id) refl
written-read k user_id [] [] (d ∷ rest) content h = cc
written-read k user_id [] (l ∷ layout) rest content h = cc
written-read k user_id (v ∷ widgets) layout rest content h = cc

to_text-read :
    (dashboards : Dashboards) (content : Str)
    → to_text dashboards ≡ ok content
    → from_text content ≡ ok dashboards
to_text-read [] content h = cc
to_text-read ((k, config) ∷ rest) content h =
    written-read k config.user_id config.widgets config.layout rest content h

file-ReadsBack : ReadsBack file
file-ReadsBack = record { writes = λ s w u h. (refl, refl); parses = to_text-read }

saved : (save_dashboard file (codes "1") (bare (codes "1")) [] none).2 ≡ ok tt
unfolding save_dashboard persist Map.insert
saved = refl

new-save_dashboard_example :
    get_dashboard
      (codes "1")
      (new file (save_dashboard file (codes "1") (bare (codes "1")) [] none).1)
    ≡ (if str_eq (codes "1") (codes "1") then bare (codes "1") else get_dashboard (codes "1") [])
new-save_dashboard_example =
    new-save_dashboard file file-ReadsBack (codes "1") (codes "1") (bare (codes "1")) [] none tt
      saved
