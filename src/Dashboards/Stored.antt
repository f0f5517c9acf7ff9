-- ===== src/Dashboards/Stored.antt =====
-- src/dashboard_custom/mod.rs: what is kept of a user's dashboard, in memory and over a restart.
use moxui.Prelude.{ap, ◌∙◌, Str, str_eq, true, if◌then◌else◌, ok, ◌≡◌, refl, arith, inl, inr}
use moxui.Prelude.Results.{Result-cases}
use moxui.Prelude.Map
use moxui.Prelude.Map.{Map, get-insert, get-remove}
use moxui.Dashboards.{
  Files, CustomDashboardConfig, Dashboards, default_dashboard, get_dashboard, new, persist,
  save_dashboard, delete_dashboard,
}

-- What is documented of the file and of `serde_json`: a text that was written without an error is
-- there and is read back, and a text that dashboards were written as is read as them.
pub record ReadsBack {W : Type 0} (fs : Files W) : Type 0 where
  pub writes :
      (content : Str) (w : W) (u : Unit {0})
      → (fs.write content w).1 ≡ ok u
      → (fs.exists (fs.write content w).0 ≡ true)
        × (fs.read_to_string (fs.write content w).0 ≡ ok content)
  pub parses :
      (dashboards : Dashboards) (content : Str)
      → fs.to_string_pretty dashboards ≡ ok content
      → fs.from_str content ≡ ok dashboards

module _ {W : Type 0} (fs : Files W) (doc : ReadsBack fs) where
  new-persist :
      (dashboards : Dashboards) (w : W) (u : Unit {0})
      → (persist fs dashboards w).1 ≡ ok u
      → new fs (persist fs dashboards w).0 ≡ dashboards
  unfolding new persist
  new-persist dashboards w u h = elim (Result-cases (fs.create_dir_all w).1) [
    | inr (e, failed) ↦ let g = rw (persist, failed) at h in ground (arith, g)
    | inl (v, created) ↦ elim (Result-cases (fs.to_string_pretty dashboards)) [
      | inr (e, failed) ↦ let g = rw (persist, created, failed) at h in ground (arith, g)
      | inl (content, serialized) ↦
          elim (Result-cases (fs.write content (fs.create_dir_all w).0).1) [
            | inr (e, failed) ↦
                let g = rw (persist, created, serialized, failed) at h in ground (arith, g)
            | inl (x, written) ↦
                let (there, back) = doc.writes content (fs.create_dir_all w).0 x written in
                rw
                  (
                    persist,
                    created,
                    serialized,
                    new,
                    there,
                    back,
                    doc.parses dashboards content serialized,
                  )
                  refl
          ]
    ]
  ]

  -- After a save the user has the new dashboard, whatever the file does, and all others have theirs;
  -- if it answered well, the service finds the same dashboards when it starts again. A text that was
  -- written is read back, and parses as what it was written for.
  pub get_dashboard-save :
      (user_id other : Str) (config : CustomDashboardConfig) (dashboards : Dashboards) (w : W)
      → let (dashboards', w', answer) = save_dashboard fs user_id config dashboards w in
        (get_dashboard other dashboards'
          ≡ (if str_eq user_id other then config else get_dashboard other dashboards))
        × ((u : Unit {0}) → answer ≡ ok u → new fs w' ≡ dashboards')
  unfolding save_dashboard get_dashboard
  get_dashboard-save user_id other config dashboards w = (
    ground (arith, get-insert user_id other config dashboards),
    λ u h. new-persist (Map.insert user_id config dashboards) w u h,
  )

  -- After a deletion the user has the default dashboard, whatever the file does, and all others have
  -- theirs; if it answered well, the service finds the same dashboards when it starts again. A text
  -- that was written is read back, and parses as what it was written for.
  pub get_dashboard-delete :
      (user_id other : Str) (dashboards : Dashboards) (w : W)
      → let (dashboards', w', answer) = delete_dashboard fs user_id dashboards w in
        (get_dashboard other dashboards' ≡ (
          if str_eq user_id other then default_dashboard other else get_dashboard other dashboards))
        × ((u : Unit {0}) → answer ≡ ok u → new fs w' ≡ dashboards')
  unfolding delete_dashboard get_dashboard
  get_dashboard-delete user_id other dashboards w = (
    ground (arith, get-remove user_id other dashboards),
    λ u h. new-persist (Map.remove user_id dashboards) w u h,
  )

  -- After a save that answered well, a service that starts from the file has the new dashboard for
  -- the user, and for every other user the one that the service had. A text that was written is read
  -- back, and parses as what it was written for.
  pub new-save_dashboard :
      (user_id other : Str) (config : CustomDashboardConfig) (dashboards : Dashboards) (w : W)
      (u : Unit {0})
      → (save_dashboard fs user_id config dashboards w).2 ≡ ok u
      → get_dashboard other (new fs (save_dashboard fs user_id config dashboards w).1)
        ≡ (if str_eq user_id other then config else get_dashboard other dashboards)
  new-save_dashboard user_id other config dashboards w u h =
      let (shown, kept) = get_dashboard-save user_id other config dashboards w in
      ap (get_dashboard other) (kept u h) ∙ shown
