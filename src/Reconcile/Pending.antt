-- ===== src/Reconcile/Pending.antt =====
-- The pass over transactions in flight: the ledger is corrected to what Horizon reports.
use flowx.Prelude.{
  ℕ, ◌+◌, String, Bool, true, false, not, ◌&&◌, ◌||◌, List, ltb, ◌==◌, string_eq, if◌then◌else◌,
  is_none, map,
}
use flowx.Decimal.{Decimal}
use flowx.Exec.{concurrent_update, chain_error, pure, raise, gets, catch, ◌>>=◌, ◌>>◌}
use flowx.Domain.{Transaction, EventType, transfer_settled, transfer_failed}
use flowx.Domain.Status.{pending, submitted, tx_status_eq}
use flowx.Table.{select_where}
use flowx.World.{
  TxRow, Action, DetailReply, attempt, dispatch, successful, unsuccessful, not_found, unavailable,
}
use flowx.TxRepo.{scan, update_tx_confirmed, update_tx_failed}
use flowx.Submission.{transaction_detail}

-- `pendingCheckThreshold` and `stuckThreshold`, in seconds
abbrev pub pending_check_threshold : ℕ
pending_check_threshold = 120

abbrev pub stuck_threshold : ℕ
stuck_threshold = 600

abbrev pub awaiting : {D : Type 0} → ℕ → ℕ → TxRow D → Bool
awaiting older_than now r =
    ((r.status == pending) || (r.status == submitted))
    && not (is_none r.tx_hash)
    && ltb (r.created_at + older_than) now

module _ {D : Type 0} ⦃d : Decimal D⦄ where
  -- `GetPendingTxesForReconciliation`, without the order. Rows that another pass has locked would
  -- be skipped; there is one pass.
  unfoldable pub get_pending_txes : ℕ → Action D (List (Transaction D))
  unfolding select_where scan
  get_pending_txes older_than = attempt (do
    now ← gets (λ w. w.now)
    rows ← gets (λ w. select_where (awaiting older_than now) w.rows)
    pure (map scan rows))

  -- What an update of the pass reports: (discrepancy, correction), or the error with them.
  abbrev pub correct : EventType → String → Action D (Unit {0}) → Action D (Bool × Bool)
  correct event id update =
      catch (do update; dispatch event id; pure (true, true))
        (λ e. elim e [ concurrent_update ↦ pure (true, false) | other ↦ raise other ])

  -- What Horizon's answer about the hash leads to.
  abbrev pub act_on : Transaction D → Bool → DetailReply → Action D (Bool × Bool)
  act_on tx stuck successful = correct transfer_settled tx.id (update_tx_confirmed tx.id tx.tx_hash)
  act_on tx stuck unsuccessful = correct transfer_failed tx.id (update_tx_failed tx.id)
  act_on tx stuck not_found = pure (stuck, false)
  act_on tx stuck unavailable = raise chain_error

  abbrev pub look_up : Transaction D → Bool → Action D (Bool × Bool)
  look_up tx stuck = do detail ← transaction_detail tx.tx_hash; act_on tx stuck detail

  -- `checkPendingTransaction`: a 404 counts as such only where it comes as a `*horizonclient.Error`,
  -- which is `not_found` here. The alerts are left out.
  unfoldable pub check_pending_transaction : Transaction D → Action D (Bool × Bool)
  check_pending_transaction tx = do
    now ← gets (λ w. w.now)
    let stuck = ltb (tx.created_at + stuck_threshold) now
    if tx.tx_hash == "" then pure (stuck, false) else look_up tx stuck
