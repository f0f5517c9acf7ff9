-- ===== src/Audit/Middleware/Logged.antt =====
-- src/audit/middleware.rs: which requests are logged, and what their answers keep.
use moxui.Prelude.{
  if◌then◌else◌, Bool-cases, inl, inr, ℕ, List, [], ◌∷◌, ◌++◌, Bool, true, not, ◌||◌, none, ◌≡◌,
  refl, ap, arith,
}
use moxui.Prelude.Int.{ℤ}
use mathlib.Core.Option
use moxui.Audit.Store.{SqlRow, Sqlite, log, columns_of}
use moxui.Audit.Store.Statements.{Documented}
use moxui.Audit.Middleware.{
  Request, Response, Readings, is_state_changing, is_success, entry_for, stamp, audit_middleware,
}

-- Whether the middleware keeps an entry.
abbrev pub is_kept : Request → ℕ → Bool
is_kept req status = is_state_changing req.method || not (is_success status)

stamp-status :
    {B : Type 0} (env : Readings) (req : Request) (resp : Response B)
    → (stamp env req resp).status ≡ resp.status
unfolding stamp
stamp-status env req resp = ground arith

stamp-body :
    {B : Type 0} (env : Readings) (req : Request) (resp : Response B)
    → (stamp env req resp).body ≡ resp.body
unfolding stamp
stamp-body env req resp = ground arith

module _ {Db B : Type 0} (db : Sqlite Db) (rows : Db → List SqlRow) (doc : Documented db rows)
    (env : Readings) (next : Request → Db → Db × Response B) (req : Request) (d : Db) where
  -- What the stack below leaves of the database, and its answer.
  abbrev pub after : Db
  after = (next req d).0

  abbrev pub answer : Response B
  answer = (next req d).1

  -- A request that changes state, or that is answered with no success, adds its entry to the log,
  -- last; any other leaves the log as the handler left it. The answer keeps its status and body. The
  -- database does what is documented of its statements.
  pub audit_middleware_lem :
      (id : ℤ) × (rows (audit_middleware env db next req d).0 ≡ (
        if is_kept req answer.status
        then rows after
          ++ (record { id = id; columns = columns_of (entry_for env req answer.status) } ∷ [])
        else rows after))
      × ((audit_middleware env db next req d).1.status ≡ answer.status)
      × ((audit_middleware env db next req d).1.body ≡ answer.body)
  unfolding audit_middleware log
  audit_middleware_lem =
      let (id, stored, done) = doc.inserts (columns_of (entry_for env req answer.status)) after in
      (
        id,
        elim (Bool-cases (is_kept req answer.status)) [
          | inl kept ↦ rw kept stored
          | inr skipped ↦ rw skipped refl
        ],
        stamp-status env req answer,
        stamp-body env req answer,
      )

  -- The entry of a request that comes without claims names no user, whoever the stack below finds
  -- the user to be.
  pub audit_middleware-user :
      req.claims ≡ none
      → is_kept req answer.status ≡ true
      → (row : SqlRow) × (rows (audit_middleware env db next req d).0 ≡ rows after ++ (row ∷ []))
        × (row.columns.user_id ≡ none)
  unfolding columns_of entry_for
  audit_middleware-user anonymous h =
      let (id, stored, _, _) = audit_middleware_lem in
      let kept = rw h at stored in
      (
        record { id = id; columns = columns_of (entry_for env req answer.status) },
        kept,
        ap (λ c. Option.map (λ c. c.sub) c) anonymous,
      )
