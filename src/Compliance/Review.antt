-- ===== src/Compliance/Review.antt =====
-- The decision on a held transfer: it is made once, only an approval that returns enqueues, and
-- what is left when a call of the database fails half-way.
use flowx.Prelude.{
  ℕ, ◌≡◌, ◌≢◌, refl, ◌⊎◌, String, Bool, true, false, Option, some, List, [], ◌∷◌, ◌++◌, arith,
  nullable, count, string_eq, All,
}
use flowx.Exec.{Error, call_failed, Result, ok, err}
use flowx.Domain.{ComplianceReview}
use flowx.Domain.Status.{
  ReviewStatus, pending, approved, rejected, TransactionStatus, review_status_eq,
}
use flowx.Table.{
  query_row, count-update_where, count-update_where_zero, query_row-holds, query_row-count,
}
use flowx.World.{World, Action}
use flowx.TxRepo.{update_status, nullable_uuid}
use flowx.Compliance.Repo.{get_review, decide_review, review_by_id, undecided}
use flowx.Compliance.Service.{Context, release_transfer, decide}

-- A call of `decide` as data.
pub record Decision : Type 0 where
  pub context : Context
  pub review_id : String
  pub outcome : ReviewStatus
  pub notes : String

-- Only `ApproveReview` and `RejectReview` call `decide`, with these outcomes.
abbrev pub IsOutcome : ReviewStatus → Type 0
IsOutcome o = (o ≡ approved) ⊎ (o ≡ rejected)

module _ {D : Type 0} (has_queue : Bool) where
  unfoldable pub run_decision : Decision → Action D ComplianceReview
  run_decision c = decide has_queue c.context c.review_id c.outcome c.notes

  unfoldable pub run_decisions : List Decision → World D → World D
  unfolding run_decision
  run_decisions [] w = w
  run_decisions (c ∷ cs) w = run_decisions cs (run_decision c w).1

module _ {D : Type 0} where
  -- How many rows a decision on the review could still win.
  abbrev pub open_reviews : String → String → World D → ℕ
  open_reviews tenant id w = count (undecided tenant id) w.reviews

  reviews-update_status :
      (tenant id : String) (s : TransactionStatus) (h : String) (w : World D)
      → (update_status tenant id s h w).1.reviews ≡ w.reviews
  unfolding update_status
  reviews-update_status tenant id s h w = ground arith

  reviews-release_transfer :
      (q : Bool) (ctx : Context) (id : String) (w : World D)
      → (release_transfer q ctx id w).1.reviews ≡ w.reviews
  unfolding release_transfer
  reviews-release_transfer q ctx id w =
      ground (arith, reviews-update_status ctx.tenant id TransactionStatus.pending "" w)

  queue-update_status :
      (tenant id : String) (s : TransactionStatus) (h : String) (w : World D)
      → (update_status tenant id s h w).1.queue ≡ w.queue
  unfolding update_status
  queue-update_status tenant id s h w = ground arith

  -- What `decide_review` leaves of the reviews still open.
  decide_review-open :
      (t tenant id j : String) (o : ReviewStatus) (by : Option String) (n : String) (at : ℕ)
      (w : World D)
      → IsOutcome o
      → open_reviews t j w ≡ 0
      → open_reviews t j (decide_review tenant id o by n at w).1 ≡ 0
  unfolding decide_review
  decide_review-open t tenant id j o by n at w io h = ground (
    arith,
    count-update_where_zero (undecided t j) (undecided tenant id)
        (λ (r : ComplianceReview). record r {
          status = o;
          reviewed_by = nullable_uuid by;
          review_notes = n;
          reviewed_at = some at;
        })
        w.reviews (λ r p q. ground arith) h,
  )

  decide_review-closes :
      (t id : String) (o : ReviewStatus) (by : Option String) (n : String) (at : ℕ) (w : World D)
      → IsOutcome o
      → (decide_review t id o by n at w).0 ≡ ok tt
      → open_reviews t id (decide_review t id o by n at w).1 ≡ 0
  unfolding decide_review
  decide_review-closes t id o by n at w io e = ground (
    arith,
    count-update_where (undecided t id)
        (λ (r : ComplianceReview). record r {
          status = o;
          reviewed_by = nullable_uuid by;
          review_notes = n;
          reviewed_at = some at;
        })
        w.reviews (λ r p. ground arith),
  )

  decide_review-refused :
      (t id : String) (o : ReviewStatus) (by : Option String) (n : String) (at : ℕ) (w : World D)
      → open_reviews t id w ≡ 0
      → (decide_review t id o by n at w).0 ≢ ok tt
  unfolding decide_review
  decide_review-refused t id o by n at w h e = ground arith

  reviews-get_review : (t id : String) (w : World D) → (get_review t id w).1.reviews ≡ w.reviews
  unfolding get_review
  reviews-get_review t id w = ground arith

  queue-get_review : (t id : String) (w : World D) → (get_review t id w).1.queue ≡ w.queue
  unfolding get_review
  queue-get_review t id w = ground arith

  queue-decide_review :
      (t id : String) (o : ReviewStatus) (by : Option String) (n : String) (at : ℕ) (w : World D)
      → (decide_review t id o by n at w).1.queue ≡ w.queue
  unfolding decide_review
  queue-decide_review t id o by n at w = ground arith

  queue-release_transfer :
      (b : Bool) (ctx : Context) (id : String) (w : World D)
      → ((release_transfer b ctx id w).1.queue ≡ w.queue)
        ⊎ (((release_transfer b ctx id w).0 ≡ ok tt)
            × ((release_transfer b ctx id w).1.queue ≡ w.queue ++ id ∷ []))
  unfolding release_transfer
  queue-release_transfer true ctx id w =
      ground (arith, queue-update_status ctx.tenant id TransactionStatus.pending "" w)
  queue-release_transfer false ctx id w =
      ground (arith, queue-update_status ctx.tenant id TransactionStatus.pending "" w)

-- What a decision may do to the queue, by how it ended.
abbrev pub Enqueues : ReviewStatus → List String → Result ComplianceReview → List String → Type 0
Enqueues o q (err _) q' = q' ≡ q
Enqueues o q (ok r) q' = (q' ≡ q) ⊎ ((o ≡ approved) × (q' ≡ q ++ r.transaction_id ∷ []))

module _ {D : Type 0} (has_queue : Bool) where
  decide-open :
      (t j : String) (ctx : Context) (id notes : String) (o : ReviewStatus) (w : World D)
      → IsOutcome o
      → open_reviews t j w ≡ 0
      → open_reviews t j (decide has_queue ctx id o notes w).1 ≡ 0
  unfolding decide
  decide-open t j ctx id notes o w io h = grind (
    arith,
    reviews-get_review,
    reviews-update_status,
    reviews-release_transfer,
    decide_review-open t ctx.tenant id j o (nullable ctx.user) notes,
  )

  decide-closes :
      (ctx : Context) (id notes : String) (o : ReviewStatus) (w : World D) {r : ComplianceReview}
      → IsOutcome o
      → (decide has_queue ctx id o notes w).0 ≡ ok r
      → open_reviews ctx.tenant id (decide has_queue ctx id o notes w).1 ≡ 0
  unfolding decide
  decide-closes ctx id notes o w io e = grind (
    arith,
    reviews-update_status,
    reviews-release_transfer,
    decide_review-closes ctx.tenant id o (nullable ctx.user) notes,
  )

  decide-refused :
      (ctx : Context) (id notes : String) (o : ReviewStatus) (w : World D) {r : ComplianceReview}
      → open_reviews ctx.tenant id w ≡ 0
      → (decide has_queue ctx id o notes w).0 ≢ ok r
  unfolding decide
  decide-refused ctx id notes o w h e =
      grind
        (arith, reviews-get_review, decide_review-refused ctx.tenant id o (nullable ctx.user) notes)

  run_decisions-open :
      (t id : String) (cs : List Decision) (w : World D)
      → All (λ c. IsOutcome c.outcome) cs
      → open_reviews t id w ≡ 0
      → open_reviews t id (run_decisions has_queue cs w) ≡ 0
  unfolding run_decisions
  run_decisions-open t id [] w k h = h
  run_decisions-open t id (c ∷ cs) w k h =
      run_decisions-open t id cs (run_decision has_queue c w).1 k.1
        (decide-open t id c.context c.review_id c.notes c.outcome w k.0 h)

  -- Once a decision on a review has returned, no later decision on it by the same tenant returns,
  -- whatever decisions on any reviews come between.
  pub decide_once :
      (ctx ctx' : Context) (id notes notes' : String) (o o' : ReviewStatus) (w : World D)
      (cs : List Decision) {r : ComplianceReview} (r' : ComplianceReview)
      → ctx'.tenant ≡ ctx.tenant
      → IsOutcome o
      → All (λ c. IsOutcome c.outcome) cs
      → (decide has_queue ctx id o notes w).0 ≡ ok r
      → (decide has_queue ctx' id o' notes'
          (run_decisions has_queue cs (decide has_queue ctx id o notes w).1)).0
        ≢ ok r'
  decide_once ctx ctx' id notes notes' o o' w cs r' same io k e =
      decide-refused ctx' id notes' o' _
        (rw same (run_decisions-open ctx.tenant id cs _ k (decide-closes ctx id notes o w io e)))

  ruleset queue_laws =
      (arith, queue-get_review, queue-update_status, queue-decide_review, queue-release_transfer)

  queue-decide_err :
      (ctx : Context) (id notes : String) (o : ReviewStatus) (w : World D) {e : Error}
      → (decide has_queue ctx id o notes w).0 ≡ err e
      → (decide has_queue ctx id o notes w).1.queue ≡ w.queue
  unfolding decide
  queue-decide_err ctx id notes o w h = grind queue_laws

  queue-decide_ok :
      (ctx : Context) (id notes : String) (o : ReviewStatus) (w : World D) {r : ComplianceReview}
      → (decide has_queue ctx id o notes w).0 ≡ ok r
      → ((decide has_queue ctx id o notes w).1.queue ≡ w.queue)
        ⊎ ((o ≡ approved)
            × ((decide has_queue ctx id o notes w).1.queue ≡ w.queue ++ r.transaction_id ∷ []))
  unfolding decide
  queue-decide_ok ctx id notes o w h = grind queue_laws

  -- Over any decision, what is enqueued is at most one task, for the transaction of an approval
  -- that returns; an error or a rejection leaves the queue as it was.
  pub decide-Enqueues :
      (ctx : Context) (id notes : String) (o : ReviewStatus) (w : World D)
      → Enqueues o w.queue
          (decide has_queue ctx id o notes w).0
          (decide has_queue ctx id o notes w).1.queue
  decide-Enqueues ctx id notes o w = go (decide has_queue ctx id o notes w).0 refl
    where
      go :
          (r : Result ComplianceReview)
          → (decide has_queue ctx id o notes w).0 ≡ r
          → Enqueues o w.queue r (decide has_queue ctx id o notes w).1.queue
      go (ok r) e = queue-decide_ok ctx id notes o w e
      go (err x) e = queue-decide_err ctx id notes o w e

  -- Where the status update fails after an approval was recorded, the approval returns an error, the
  -- transaction and the queue are as before, and no row is left that a later decision could win.
  pub approve_stuck :
      (ctx : Context) (id notes : String) (w : World D) (r : ComplianceReview) (later : List Bool)
      → w.faults ≡ false ∷ false ∷ true ∷ later
      → query_row (review_by_id ctx.tenant id) w.reviews ≡ some r
      → r.status ≡ pending
      → ((decide has_queue ctx id approved notes w).0 ≡ err call_failed)
        × ((decide has_queue ctx id approved notes w).1.rows ≡ w.rows)
        × ((decide has_queue ctx id approved notes w).1.queue ≡ w.queue)
        × (open_reviews ctx.tenant id (decide has_queue ctx id approved notes w).1 ≡ 0)
  unfolding decide get_review decide_review release_transfer update_status
  approve_stuck ctx id notes w r later f q p =
      let found = query_row-holds (review_by_id ctx.tenant id) w.reviews r q in
      let live =
        query_row-count (review_by_id ctx.tenant id) (undecided ctx.tenant id) w.reviews r q
          (ground arith) in
      let closed =
        count-update_where (undecided ctx.tenant id)
          (λ (r : ComplianceReview). record r {
            status = approved;
            reviewed_by = nullable_uuid (nullable ctx.user);
            review_notes = notes;
            reviewed_at = some w.now;
          })
          w.reviews (λ r p. ground arith) in
      ground (arith, live, closed)
