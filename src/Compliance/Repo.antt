-- ===== src/Compliance/Repo.antt =====
-- The review and block tables of internal/postgres/compliance_repo.go.
use flowx.Prelude.{
  ℕ, String, Bool, ◌&&◌, ◌||◌, Option, none, some, [], ◌∷◌, ◌++◌, ltb, ◌==◌, count, if◌then◌else◌,
  string_eq, nat_eq,
}
use flowx.Exec.{
  ok, err, call_failed, compliance_review_not_found, review_not_pending, gets, or_raise, ◌>>=◌,
}
use flowx.Domain.{ComplianceReview, ComplianceBlock}
use flowx.Domain.Status.{ReviewStatus, pending, review_status_eq}
use flowx.Table.{update_where, query_row}
use flowx.World.{Action, attempt}
use flowx.TxRepo.{in_tenant, nullable_uuid}

-- `review.OrgID`, filled from the context
abbrev org_or : String → Option String → Option String
org_or tenant none = if tenant == "" then none else some tenant
org_or tenant (some o) = nullable_uuid (some o)

abbrev pub review_by_id : String → String → ComplianceReview → Bool
review_by_id tenant id r = (r.id == id) && in_tenant tenant r.org_id

abbrev pub undecided : String → String → ComplianceReview → Bool
undecided tenant id r = (r.id == id) && (r.status == pending) && in_tenant tenant r.org_id

module _ {D : Type 0} where
  -- `CreateReview`. The table has one review for each transaction (a UNIQUE index).
  unfoldable pub create_review : String → ComplianceReview → Action D (Unit {0})
  create_review tenant r = attempt (λ w.
      if ltb 0 (
        count
          (λ (old : ComplianceReview). (old.id == r.id) || (old.transaction_id == r.transaction_id))
          w.reviews)
      then (err call_failed, w)
      else (
        ok tt,
        record w { reviews = w.reviews ++ record r { org_id = org_or tenant r.org_id } ∷ [] },
      ))

  -- `GetReview`
  unfoldable pub get_review : String → String → Action D ComplianceReview
  unfolding query_row
  get_review tenant id = attempt (do
    row ← gets (λ w. query_row (review_by_id tenant id) w.reviews)
    or_raise row compliance_review_not_found)

  -- `DecideReview`
  unfoldable pub decide_review :
      String → String → ReviewStatus → Option String → String → ℕ → Action D (Unit {0})
  unfolding update_where
  decide_review tenant id status reviewed_by notes decided_at = attempt (λ w.
      if count (undecided tenant id) w.reviews == 0 then (err review_not_pending, w) else (
        ok tt,
        record w {
          reviews =
              update_where (undecided tenant id)
                (λ r. record r {
                  status = status;
                  reviewed_by = nullable_uuid reviewed_by;
                  review_notes = notes;
                  reviewed_at = some decided_at;
                })
                w.reviews;
        },
      ))

  -- `CreateBlock`
  unfoldable pub create_block : String → ComplianceBlock D → Action D (Unit {0})
  create_block tenant b = attempt (λ w.
      (ok tt, record w { blocks = w.blocks ++ record b { org_id = org_or tenant b.org_id } ∷ [] }))
