-- ===== src/TxRepo/Reopen.antt =====
-- The reset of a claimed transaction in internal/postgres/transaction_repo.go goes by the age of the
-- transaction, not of the claim.
use flowx.Prelude.{
  ℕ, ◌+◌, ◌≤◌, ◌<◌, ◌≡◌, sym, String, Bool, true, ◌&&◌, List, [], ◌∷◌, arith, ltb, count, is_none,
  string_eq,
}
use mathlib.Core.Path.{subst}
use flowx.Exec.{ok}
use flowx.Domain.Status.{pending, submitted, tx_status_eq}
use flowx.Table.{update_where}
use flowx.World.{TxRow, World}
use flowx.TxRepo.{
  exec_update, must_affect, claimable, claim_for_submission, stuck_submitted,
  reset_stuck_submitted_to_pending,
}

module _ {A : Type 0} where
  count-update_where-ge :
      (a b p : A → Bool) (f : A → A) (rs : List A)
      → ((r : A) → a r ≡ true → (p r ≡ true) × (b (f r) ≡ true))
      → count a rs ≤ count b (update_where p f rs)
  unfolding update_where
  count-update_where-ge a b p f [] h = omega arith
  count-update_where-ge a b p f (r ∷ rs) h = ground (arith, h r, count-update_where-ge a b p f rs h)

module _ {D : Type 0} (id : String) (age : ℕ) where
  -- Whether a row is pending, older than the age, and has no hash.
  abbrev pub old_pending : ℕ → TxRow D → Bool
  old_pending now r = claimable id r && is_none r.tx_hash && ltb (r.created_at + age) now

  abbrev claimed : World D → World D
  claimed w = (claim_for_submission id w).1

  abbrev reset : World D → World D
  reset w = (reset_stuck_submitted_to_pending id age w).1

  claimed_stuck :
      (w : World D)
      → w.faults ≡ []
      → 0 < count (old_pending w.now) w.rows
      → 0 < count (stuck_submitted id age w.now) (claimed w).rows
  unfolding claim_for_submission exec_update must_affect
  claimed_stuck w h k = grind (
    arith,
    count-update_where-ge (old_pending w.now) (stuck_submitted id age w.now) (claimable id)
        (λ (r : TxRow D). record r { status = submitted }) w.rows (λ r e. ground arith),
  )

  reset-claimable :
      (w : World D)
      → w.faults ≡ []
      → 0 < count (stuck_submitted id age w.now) w.rows
      → 0 < count (claimable id) (reset w).rows
  unfolding reset_stuck_submitted_to_pending exec_update must_affect
  reset-claimable w h k = grind (
    arith,
    count-update_where-ge (stuck_submitted id age w.now) (claimable id)
        (stuck_submitted id age w.now) (λ (r : TxRow D). record r { status = pending }) w.rows
        (λ r e. ground arith),
  )

  claim_ok :
      (w : World D)
      → w.faults ≡ []
      → 0 < count (claimable id) w.rows
      → (claim_for_submission id w).0 ≡ ok tt
  unfolding claim_for_submission exec_update must_affect
  claim_ok w h k = grind arith

  claim_quiet :
      (w : World D) → w.faults ≡ [] → ((claimed w).faults ≡ []) × ((claimed w).now ≡ w.now)
  unfolding claim_for_submission exec_update must_affect
  claim_quiet w h = grind arith

  reset_quiet : (w : World D) → w.faults ≡ [] → (reset w).faults ≡ []
  unfolding reset_stuck_submitted_to_pending exec_update must_affect
  reset_quiet w h = grind arith

  -- A transaction that is older than the reset's age can be claimed, reset and claimed again with
  -- no time passing: while one worker still prepares the payment that it has claimed, the reset
  -- gives the transaction to a second one. No database call fails here.
  pub claim_reset_claim :
      (w : World D)
      → w.faults ≡ []
      → 0 < count (old_pending w.now) w.rows
      → 0 < count (claimable id) w.rows
      → ((claim_for_submission id w).0 ≡ ok tt)
        × ((claim_for_submission id (reset (claimed w))).0 ≡ ok tt)
  claim_reset_claim w h k c =
      let (h', n) = claim_quiet w h in
      (
        claim_ok w h c,
        claim_ok (reset (claimed w)) (reset_quiet (claimed w) h') (
            reset-claimable (claimed w) h' (
              subst (λ t. 0 < count (stuck_submitted id age t) (claimed w).rows) (sym n)
                (claimed_stuck w h k))),
      )
