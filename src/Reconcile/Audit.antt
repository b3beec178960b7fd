-- ===== src/Reconcile/Audit.antt =====
-- The hourly pass over confirmed transactions: each is compared with what Horizon has under its hash,
-- and the audit log says how that came out. The texts of the log and the alerts are left out.
use flowx.Prelude.{
  ℕ, ◌+◌, String, Bool, true, false, not, ◌&&◌, ◌||◌, Option, none, some, List, [], ◌∷◌, ◌++◌, ltb,
  ◌==◌, string_eq, if◌then◌else◌, is_none, map,
}
use flowx.Decimal.{Decimal}
use flowx.Exec.{Exec, ok, err, chain_error, call_failed, pure, raise, gets, logged, ◌>>=◌, ◌>>◌}
use flowx.Domain.{Transaction, Wallet}
use flowx.Domain.Status.{confirmed, reconciliation_failed, tx_status_eq}
use flowx.Table.{select_where}
use flowx.World.{
  TxRow, World, Action, DetailReply, attempt, draw, successful, unsuccessful, not_found,
  unavailable, next_fault, rest_faults,
}
use flowx.TxRepo.{scan, update_reconciliation_status, update_reconciled_at}
use flowx.Submission.{transaction_detail}
use flowx.Reconcile.Verify.{Operation, verify_ops, build_expected_payment}

pub data AuditOutcome : Type 0 where
  audit_ok audit_mismatch audit_not_found : AuditOutcome

pub record AuditLogEntry : Type 0 where
  pub id : String
  pub tx_id : String
  pub stellar_hash : String
  pub checked_at : ℕ
  pub amount_verified : Bool
  pub asset_verified : Bool
  pub fee_verified : Bool
  pub outcome : AuditOutcome

pub record Books (D : Type 0) : Type 0 where
  pub world : World D
  pub audit_log : List AuditLogEntry

abbrev pub Auditing : Type 0 → Type 0 → Type 0
Auditing D A = Exec (Books D) A

-- What the service is built from.
pub record Auditor (D : Type 0) : Type 0 where
  pub operations : String → Action D (List Operation)
  pub find_wallet : String → Action D Wallet
  pub registry : String → Option (String × String)
  pub fee_wallet : String
  pub uuid : ℕ → String

abbrev pub on_world : {D A : Type 0} → Action D A → Auditing D A
on_world m s = let (r, w) = m s.world in (r, record s { world = w })

-- `reconcileInterval`, in seconds
abbrev pub reconcile_interval : ℕ
reconcile_interval = 3600

abbrev pub unreconciled : Option ℕ → ℕ → ℕ → Bool
unreconciled none since now = true
unreconciled (some t) since now = ltb (t + since) now

abbrev pub due : {D : Type 0} → ℕ → ℕ → TxRow D → Bool
due since now r =
    (r.status == confirmed) && not (is_none r.tx_hash) && unreconciled r.reconciled_at since now

module _ {D : Type 0} ⦃d : Decimal D⦄ where
  -- `GetConfirmedTxesForReconciliation`, without the order
  unfoldable pub get_confirmed_txes : ℕ → Action D (List (Transaction D))
  unfolding select_where scan
  get_confirmed_txes since = attempt (do
    now ← gets (λ w. w.now)
    rows ← gets (λ w. select_where (due since now) w.rows)
    pure (map scan rows))

  -- `WriteAuditLog`
  unfoldable pub write_audit_log : AuditLogEntry → Auditing D (Unit {0})
  write_audit_log entry s =
      let w : World D = record s.world { faults = rest_faults s.world.faults } in
      if next_fault s.world.faults
      then (err call_failed, record s { world = w })
      else (ok tt, record { world = w; audit_log = s.audit_log ++ entry ∷ [] })

module _ {D : Type 0} ⦃d : Decimal D⦄ (sv : Auditor D) where
  -- `writeAudit`
  unfoldable pub write_audit :
      Transaction D → Bool × Bool × Bool → AuditOutcome → Auditing D (Unit {0})
  unfolding write_audit_log
  write_audit tx flags outcome = do
    id ← on_world (draw sv.uuid)
    now ← gets (λ s. s.world.now)
    logged (
        write_audit_log (record {
          id = id;
          tx_id = tx.id;
          stellar_hash = tx.tx_hash;
          checked_at = now;
          amount_verified = flags.0;
          asset_verified = flags.1;
          fee_verified = flags.2;
          outcome = outcome;
        }))

  -- the update and the log of a transaction that does not stand
  unfoldable pub fail_audit :
      Transaction D → Bool × Bool × Bool → AuditOutcome → Auditing D (Unit {0})
  unfolding write_audit
  fail_audit tx flags outcome = do
    on_world (update_reconciliation_status tx.id reconciliation_failed)
    write_audit tx flags outcome

  -- what the flags of `verifyOps` lead to
  unfoldable pub judge : Transaction D → Bool × Bool × Bool → Auditing D (Unit {0})
  unfolding fail_audit
  judge tx flags =
      if not flags.0 || not flags.1 || not flags.2 then fail_audit tx flags audit_mismatch else (do
        write_audit tx (true, true, true) audit_ok
        logged (on_world (update_reconciled_at tx.id)))

  -- what Horizon's answer about the hash leads to
  unfoldable pub audit_detail : Transaction D → DetailReply → Auditing D (Unit {0})
  unfolding judge
  audit_detail tx unavailable = raise chain_error
  audit_detail tx not_found = fail_audit tx (false, false, false) audit_not_found
  audit_detail tx unsuccessful = fail_audit tx (false, false, false) audit_not_found
  audit_detail tx successful = do
    ops ← on_world (sv.operations tx.tx_hash)
    exp ← on_world (build_expected_payment sv.find_wallet sv.registry sv.fee_wallet tx)
    judge tx (verify_ops ops exp)

  -- `checkTransaction`: a 404 counts as such only where it comes as a `*horizonclient.Error`, which
  -- is `not_found` here.
  unfoldable pub check_transaction : Transaction D → Auditing D (Unit {0})
  unfolding audit_detail
  check_transaction tx = do
    detail ← on_world (transaction_detail tx.tx_hash)
    audit_detail tx detail

  unfoldable pub check_all : List (Transaction D) → Auditing D (Unit {0})
  unfolding check_transaction
  check_all [] = pure tt
  check_all (tx ∷ txes) = do logged (check_transaction tx); check_all txes

  -- `Reconcile`
  unfoldable pub reconcile : Auditing D (Unit {0})
  unfolding check_all
  reconcile = do txes ← on_world (get_confirmed_txes reconcile_interval); check_all txes
