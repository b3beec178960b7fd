-- ===== src/Reconcile/Recover.antt =====
-- The pass over transactions that are stuck: they are queued again, three times at most.
use flowx.Prelude.{
  ℕ, ◌+◌, String, Bool, ◌&&◌, ◌||◌, Option, none, List, [], ◌∷◌, ltb, ◌==◌, string_eq,
  if◌then◌else◌, is_none,
}
use flowx.Decimal.{Decimal}
use flowx.Exec.{Result, ok, err, pure, lift, gets, logged, ◌>>=◌, ◌>>◌}
use flowx.Domain.{Transaction}
use flowx.Domain.Status.{pending, submitted, failed, compliance_hold, tx_status_eq}
use flowx.Table.{select_where}
use flowx.World.{TxRow, Action, attempt, enqueue_transfer}
use flowx.TxRepo.{
  scan, reset_stuck_submitted_to_pending, increment_requeue_count, update_reconciliation_status,
}
use flowx.Reconcile.Pending.{stuck_threshold}

abbrev pub max_requeues : ℕ
max_requeues = 3

abbrev pub stuck_row : {D : Type 0} → ℕ → ℕ → TxRow D → Bool
stuck_row older_than now r =
    ((r.status == pending) || (r.status == submitted) && is_none r.tx_hash)
    && ltb (r.created_at + older_than) now

module _ {D : Type 0} ⦃d : Decimal D⦄ (scan_text : Option String → Result String) where
  -- The Scan of one row: the hash is read as it is into a text, with no COALESCE.
  unfoldable pub scan_stuck : TxRow D → Result (Transaction D)
  unfolding scan
  scan_stuck r = elim (scan_text r.tx_hash) [
    | ok h ↦ ok (record (scan r) { tx_hash = h; batch_id = none; reference = "" })
    | err e ↦ err e
  ]

  -- The loop over the rows: the first error ends it.
  unfoldable pub scan_all : List (TxRow D) → Result (List (Transaction D))
  unfolding scan_stuck
  scan_all [] = ok []
  scan_all (r ∷ rs) =
      let rest = scan_all rs in
      elim (scan_stuck r) [
        | err e ↦ err e
        | ok t ↦ elim rest [ err e ↦ err e | ok ts ↦ ok (t ∷ ts) ]
      ]

  -- `GetStuckPendingTxes`, without the order. `scan_text` is what pgx does with a nullable text
  -- that is scanned into a Go string.
  unfoldable pub get_stuck_pending_txes : ℕ → Action D (List (Transaction D))
  unfolding select_where scan_all
  get_stuck_pending_txes older_than = attempt (do
    now ← gets (λ w. w.now)
    rows ← gets (λ w. select_where (stuck_row older_than now) w.rows)
    lift (scan_all rows))

module _ {D : Type 0} where
  -- the reset of a transaction that was claimed
  unfoldable pub reset_claimed : Transaction D → Action D (Unit {0})
  reset_claimed tx =
      if tx.status == submitted
      then reset_stuck_submitted_to_pending tx.id stuck_threshold
      else pure tt

  -- The count, and what it decides.
  unfoldable pub requeue_or_fail : Transaction D → Action D (Unit {0})
  requeue_or_fail tx = do
    n ← increment_requeue_count tx.id
    if ltb max_requeues n
        then logged (update_reconciliation_status tx.id failed)
        else enqueue_transfer tx.id

  -- The body of the loop of `RecoverPending`; every error in it is logged and ends the turn.
  unfoldable pub recover_one : Transaction D → Action D (Unit {0})
  recover_one tx =
      if tx.status == compliance_hold
      then pure tt
      else logged (do reset_claimed tx; requeue_or_fail tx)

  unfoldable pub recover_all : List (Transaction D) → Action D (Unit {0})
  recover_all [] = pure tt
  recover_all (tx ∷ txs) = do recover_one tx; recover_all txs

-- `RecoverPending`
unfoldable pub recover_pending :
    {D : Type 0} ⦃d : Decimal D⦄ → (Option String → Result String) → Action D (Unit {0})
unfolding recover_all get_stuck_pending_txes
recover_pending scan_text = do
  txs ← get_stuck_pending_txes scan_text stuck_threshold
  recover_all txs
