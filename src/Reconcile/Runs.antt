-- ===== src/Reconcile/Runs.antt =====
-- The run of the reconciliation every five minutes: its passes one after the other, whatever they
-- return, and the record of the run.
use flowx.Prelude.{
  ℕ, suc, String, Bool, true, false, Option, List, [], ◌∷◌, ◌++◌, length, if◌then◌else◌,
}
use flowx.Decimal.{Decimal}
use flowx.Exec.{
  Exec, Result, ok, err, chain_error, call_failed, pure, gets, logged, outcome_of, ◌>>=◌, ◌>>◌,
}
use flowx.Domain.{Transaction}
use flowx.World.{World, Action, draw, next_fault, rest_faults}
use flowx.Reconcile.Pending.{check_pending_transaction, get_pending_txes, pending_check_threshold}
use flowx.Reconcile.Recover.{recover_pending}
use flowx.Reconcile.Audit.{Auditor, Books, Auditing, on_world, reconcile}

pub record ReconciliationRun : Type 0 where
  pub id : String
  pub started_at : ℕ
  pub completed_at : ℕ
  pub txs_checked : ℕ
  pub discrepancies_found : ℕ
  pub corrections_made : ℕ

pub record Ledger (D : Type 0) : Type 0 where
  pub books : Books D
  pub runs : List ReconciliationRun

abbrev pub on_books : {D A : Type 0} → Auditing D A → Exec (Ledger D) A
on_books m s = let (r, b) = m s.books in (r, record s { books = b })

-- The flags that a check returned. An error of the look-up comes without any; one of the update comes
-- with a discrepancy.
abbrev pub flags_of : Result (Bool × Bool) → Bool × Bool
flags_of (ok flags) = flags
flags_of (err chain_error) = (false, false)
flags_of (err e) = (true, false)

abbrev pub add_flags : Bool × Bool → ℕ × ℕ → ℕ × ℕ
add_flags (d, c) (ds, cs) = ((if d then suc ds else ds), (if c then suc cs else cs))

abbrev counts_of : Result (ℕ × ℕ × ℕ) → ℕ × ℕ × ℕ
counts_of (ok counts) = counts
counts_of (err e) = (0, 0, 0)

module _ {D : Type 0} ⦃d : Decimal D⦄ where
  -- the loop of `RunPendingReconciliation`: the discrepancies and the corrections
  unfoldable pub check_pending_all : List (Transaction D) → Action D (ℕ × ℕ)
  unfolding check_pending_transaction
  check_pending_all [] = pure (0, 0)
  check_pending_all (tx ∷ txes) = do
    r ← outcome_of (check_pending_transaction tx)
    counts ← check_pending_all txes
    pure (add_flags (flags_of r) counts)

  -- `RunPendingReconciliation`: the checked, the discrepancies and the corrections
  unfoldable pub run_pending_reconciliation : Action D (ℕ × ℕ × ℕ)
  unfolding get_pending_txes check_pending_all
  run_pending_reconciliation = do
    txes ← get_pending_txes pending_check_threshold
    counts ← check_pending_all txes
    pure (length txes, counts.0, counts.1)

  -- `WriteReconciliationRun`
  unfoldable pub write_reconciliation_run : ReconciliationRun → Exec (Ledger D) (Unit {0})
  write_reconciliation_run run s =
      let w : World D = record s.books.world { faults = rest_faults s.books.world.faults } in
      let b : Books D = record s.books { world = w } in
      if next_fault s.books.world.faults
      then (err call_failed, record s { books = b })
      else (ok tt, record { books = b; runs = s.runs ++ run ∷ [] })

  -- `RunAll`
  unfoldable pub run_all : Auditor D → (Option String → Result String) → Exec (Ledger D) (Unit {0})
  unfolding run_pending_reconciliation reconcile recover_pending write_reconciliation_run
  run_all sv scan_text = do
    started ← gets (λ s. s.books.world.now)
    r ← outcome_of (on_books (on_world run_pending_reconciliation))
    logged (on_books (reconcile sv))
    logged (on_books (on_world (recover_pending scan_text)))
    id ← on_books (on_world (draw sv.uuid))
    now ← gets (λ s. s.books.world.now)
    logged (
        write_reconciliation_run (record {
          id = id;
          started_at = started;
          completed_at = now;
          txs_checked = (counts_of r).0;
          discrepancies_found = (counts_of r).1;
          corrections_made = (counts_of r).2;
        }))
