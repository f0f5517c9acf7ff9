-- ===== src/Api/Audit/Errors.antt =====
-- src/api/audit.rs: the answer to a page that is not there.
use moxui.Prelude.{ℕ, ◌<◌, codes, some, err, ◌≡◌, ◌⊎◌, inl, inr, arith}
use moxui.Audit.Store.{Sqlite, query}
use moxui.Api.Audit.{AuditQueryParams, query_of, list_audit}

-- The parameters ask for no page: the first is 1, and a page has 1 to 500 rows.
abbrev pub AsksNoPage : AuditQueryParams → Type 0
AsksNoPage p =
    (p.page ≡ some 0) ⊎ ((p.per_page ≡ some 0) ⊎ ((n : ℕ) × (p.per_page ≡ some n) × (500 < n)))

-- A request for no page is answered as a failure of the server, and the database is not asked.
pub list_audit-no_page :
    {Db : Type 0} (db : Sqlite Db) (p : AuditQueryParams) (d : Db)
    → AsksNoPage p
    → list_audit db p d ≡ err (500, codes "audit query failed")
unfolding list_audit query query_of
list_audit-no_page db p d (inl e) = ground arith
list_audit-no_page db p d (inr (inl e)) = ground arith
list_audit-no_page db p d (inr (inr (n, e, h))) = ground arith
