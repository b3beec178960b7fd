-- ===== src/TxRepo/Writes.antt =====
-- The writes of internal/postgres/transaction_repo.go as steps of a history, and what no history
-- of them can do: claim a transaction twice, or take back a confirmation.
use flowx.Prelude.{
  ℕ, suc, ◌≡◌, ◌≢◌, String, Bool, true, false, ◌&&◌, some, List, [], ◌∷◌, arith, ◌==◌, nullable,
  count, count-append, All, string_eq, eq_iff,
}
use flowx.Exec.{ok}
use flowx.Decimal.{Decimal}
use flowx.Domain.{Transaction}
use flowx.Domain.Status.{TransactionStatus, pending, submitted, confirmed, failed, tx_status_eq}
use flowx.Table.{count-update_where, count-update_where_zero}
use flowx.World.{TxRow, World}
use flowx.TxRepo.Quota.{create_with_monthly_limit}
use flowx.TxRepo.{
  upsert_by_tx_hash, create, insert, row_of, exec_update, must_affect, claimable,
  claim_for_submission, reset_stuck_submitted_to_pending, update_status, update_tx_confirmed,
  update_tx_failed, update_reconciliation_status, increment_requeue_count, update_reconciled_at,
  unconfirmed, stuck_submitted, in_flight,
}

pub data Write (D : Type 0) : Type 0 where
  create_tx : String → Transaction D → Write D
  create_limited : Transaction D → String → ℕ → ℕ → ℕ → Write D
  upsert : String → Transaction D → Write D
  claim : String → Write D
  reset_stuck : String → ℕ → Write D
  set_status : String → String → TransactionStatus → String → Write D
  confirm : String → String → Write D
  fail : String → Write D
  set_reconciliation : String → TransactionStatus → Write D
  requeue : String → Write D
  mark_reconciled : String → Write D

module _ {D : Type 0} ⦃d : Decimal D⦄ where
  -- The state after a call, whatever it returned.
  unfoldable pub write : Write D → World D → World D
  write (create_tx tenant t) w = (create tenant t w).1
  write (create_limited t tenant start finish limit) w =
      (create_with_monthly_limit t tenant start finish limit w).1
  write (upsert tenant t) w = (upsert_by_tx_hash tenant t w).1
  write (claim id) w = (claim_for_submission id w).1
  write (reset_stuck id age) w = (reset_stuck_submitted_to_pending id age w).1
  write (set_status tenant id s h) w = (update_status tenant id s h w).1
  write (confirm id h) w = (update_tx_confirmed id h w).1
  write (fail id) w = (update_tx_failed id w).1
  write (set_reconciliation id s) w = (update_reconciliation_status id s w).1
  write (requeue id) w = (increment_requeue_count id w).1
  write (mark_reconciled id) w = (update_reconciled_at id w).1

  unfoldable pub replay : List (Write D) → World D → World D
  unfolding write
  replay [] w = w
  replay (x ∷ xs) w = replay xs (write x w)

-- Whether a call can put the transaction `id` in the state `pending`.
abbrev pub rearms : {D : Type 0} → String → Write D → Bool
rearms id (create_tx _ t) = (t.id == id) && (t.status == pending)
rearms id (create_limited t _ _ _ _) = (t.id == id) && (t.status == pending)
rearms id (upsert _ t) = (t.id == id) && (t.status == pending)
rearms id (reset_stuck j _) = j == id
rearms id (set_status _ j s _) = (j == id) && (s == pending)
rearms id (set_reconciliation j s) = (j == id) && (s == pending)
rearms id _ = false

module _ {D : Type 0} ⦃d : Decimal D⦄ (id : String) where
  -- How many rows a claim of `id` would win.
  abbrev pub open_claims : World D → ℕ
  open_claims w = count (claimable id) w.rows

  exec_update-open_claims :
      (p : TxRow D → Bool) (f : TxRow D → TxRow D) (w : World D)
      → ((r : TxRow D) → p r ≡ true → claimable id r ≡ false → claimable id (f r) ≡ false)
      → open_claims w ≡ 0
      → open_claims (exec_update p f w).1 ≡ 0
  unfolding exec_update
  exec_update-open_claims p f w keep h =
      ground (arith, count-update_where_zero (claimable id) p f w.rows keep h)

  create-open_claims :
      (tenant : String) (t : Transaction D) (w : World D)
      → rearms id (create_tx tenant t) ≡ false
      → open_claims w ≡ 0
      → open_claims (create tenant t w).1 ≡ 0
  unfolding create insert row_of
  create-open_claims tenant t w k h = grind (arith, count-append (claimable id) w.rows)

  limited-open_claims :
      (t : Transaction D) (tenant : String) (start finish limit : ℕ) (w : World D)
      → rearms id (create_limited t tenant start finish limit) ≡ false
      → open_claims w ≡ 0
      → open_claims (create_with_monthly_limit t tenant start finish limit w).1 ≡ 0
  unfolding create_with_monthly_limit insert row_of
  limited-open_claims t tenant start finish limit w k h =
      grind (arith, count-append (claimable id) w.rows)

  upsert-open_claims :
      (tenant : String) (t : Transaction D) (w : World D)
      → rearms id (upsert tenant t) ≡ false
      → open_claims w ≡ 0
      → open_claims (upsert_by_tx_hash tenant t w).1 ≡ 0
  unfolding upsert_by_tx_hash insert row_of
  upsert-open_claims tenant t w k h = grind (arith, count-append (claimable id) w.rows)

  update_status-open_claims :
      (tenant j : String) (s : TransactionStatus) (g : String) (w : World D)
      → rearms {D = D} id (set_status tenant j s g) ≡ false
      → open_claims w ≡ 0
      → open_claims (update_status tenant j s g w).1 ≡ 0
  unfolding update_status
  update_status-open_claims tenant j s g w k h = ground (
    arith,
    count-update_where_zero (claimable id) (unconfirmed tenant j)
        (λ (r : TxRow D). record r { status = s; tx_hash = nullable g }) w.rows
        (λ r p q. ground (arith, eq_iff r.id id, eq_iff r.id j, eq_iff j id)) h,
  )

  pub write-open_claims :
      (x : Write D) (w : World D)
      → rearms id x ≡ false
      → open_claims w ≡ 0
      → open_claims (write x w) ≡ 0
  unfolding write claim_for_submission update_tx_confirmed reset_stuck_submitted_to_pending
      update_tx_failed update_reconciliation_status increment_requeue_count update_reconciled_at
      must_affect
  write-open_claims (create_tx tenant t) w k h = create-open_claims tenant t w k h
  write-open_claims (create_limited t tenant start finish limit) w k h =
      limited-open_claims t tenant start finish limit w k h
  write-open_claims (upsert tenant t) w k h = upsert-open_claims tenant t w k h
  write-open_claims (claim j) w k h = ground (
    arith,
    exec_update-open_claims (claimable j) (λ r. record r { status = submitted }) w
        (λ r p q. ground arith) h,
  )
  write-open_claims (reset_stuck j age) w k h = ground (
    arith,
    exec_update-open_claims (stuck_submitted j age w.now) (λ r. record r { status = pending }) w
        (λ r p q. ground (arith, eq_iff r.id id, eq_iff r.id j, eq_iff j id)) h,
  )
  write-open_claims (set_status tenant j s g) w k h = update_status-open_claims tenant j s g w k h
  write-open_claims (confirm j g) w k h = ground (
    arith,
    exec_update-open_claims (in_flight j)
        (λ r. record r { status = confirmed; tx_hash = nullable g }) w (λ r p q. ground arith) h,
  )
  write-open_claims (fail j) w k h = ground (
    arith,
    exec_update-open_claims (in_flight j) (λ r. record r { status = failed }) w
        (λ r p q. ground arith) h,
  )
  write-open_claims (set_reconciliation j s) w k h = ground (
    arith,
    exec_update-open_claims (λ r. r.id == j) (λ r. record r { status = s }) w
        (λ r p q. ground (arith, eq_iff r.id id, eq_iff r.id j, eq_iff j id)) h,
  )
  write-open_claims (requeue j) w k h = ground (
    arith,
    exec_update-open_claims (λ r. r.id == j) (λ r. record r { requeue_count = suc r.requeue_count })
        w (λ r p q. ground arith) h,
  )
  write-open_claims (mark_reconciled j) w k h = ground (
    arith,
    exec_update-open_claims (λ r. r.id == j) (λ r. record r { reconciled_at = some w.now }) w
        (λ r p q. ground arith) h,
  )

  replay-open_claims :
      (xs : List (Write D)) (w : World D)
      → All (λ x. rearms id x ≡ false) xs
      → open_claims w ≡ 0
      → open_claims (replay xs w) ≡ 0
  unfolding replay
  replay-open_claims [] w k h = h
  replay-open_claims (x ∷ xs) w k h =
      replay-open_claims xs (write x w) k.1 (write-open_claims x w k.0 h)

  pub claim-open_claims :
      (w : World D)
      → (claim_for_submission id w).0 ≡ ok tt
      → open_claims (claim_for_submission id w).1 ≡ 0
  unfolding claim_for_submission exec_update must_affect
  claim-open_claims w e = ground (
    arith,
    count-update_where (claimable id) (λ (r : TxRow D). record r { status = submitted }) w.rows
        (λ r p. ground arith),
  )

  pub no_claim : (w : World D) → open_claims w ≡ 0 → (claim_for_submission id w).0 ≢ ok tt
  unfolding claim_for_submission exec_update must_affect
  no_claim w h e = ground arith

  -- Once a claim of a transaction has succeeded, no later claim of it succeeds, whatever writes
  -- come between, unless one of them can set the transaction back to `pending`.
  pub claim_exclusive :
      (w : World D) (xs : List (Write D))
      → (claim_for_submission id w).0 ≡ ok tt
      → All (λ x. rearms id x ≡ false) xs
      → (claim_for_submission id (replay xs (claim_for_submission id w).1)).0 ≢ ok tt
  claim_exclusive w xs e k =
      no_claim (replay xs (claim_for_submission id w).1)
        (replay-open_claims xs (claim_for_submission id w).1 k (claim-open_claims w e))
