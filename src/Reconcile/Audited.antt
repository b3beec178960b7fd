-- ===== src/Reconcile/Audited.antt =====
-- When the audit of a confirmed transaction marks it, and how.
use mathlib.Core.Path.{subst}
use flowx.Prelude.{
  ℕ, ◌≡◌, ◌∙◌, refl, ap, ◌⊎◌, inl, inr, String, Bool, Bool-cases, true, false, not, ◌&&◌, ◌||◌,
  some, List, ◌==◌, string_eq, arith,
}
use flowx.Decimal.{Decimal, gt}
use flowx.Exec.{Result, ok, err, continue, logged, ◌>>=◌}
use flowx.Exec.Keeps.{continue-holds}
use flowx.Domain.{Transaction}
use flowx.Domain.Status.{reconciliation_failed}
use flowx.Table.{update_where}
use flowx.World.{
  TxRow, World, Action, DetailReply, successful, unsuccessful, not_found, unavailable,
}
use flowx.World.{next_fault}
use flowx.TxRepo.{exec_update, update_reconciliation_status, update_reconciled_at}
use flowx.Submission.{next_detail, transaction_detail}
use flowx.Reconcile.Verify.{
  Operation, ExpectedPayment, some_op, is_leg, matches_main_leg, matches_fee_leg, verify_ops,
  verify_ops_lem, build_expected_payment,
}
use flowx.Reconcile.Audit.{
  AuditOutcome, audit_mismatch, audit_not_found, audit_ok, Books, Auditor, on_world,
  write_audit_log, write_audit, fail_audit, judge, audit_detail, check_transaction,
}

-- A call that reads leaves the transactions as they are.
abbrev pub Reads : {D A : Type 0} → Action D A → Type 0
Reads {D} m = (w : World D) → (m w).1.rows ≡ w.rows

pub record IsReading {D : Type 0} (sv : Auditor D) : Type 0 where
  pub operations : (hash : String) → Reads (sv.operations hash)
  pub find_wallet : (id : String) → Reads (sv.find_wallet id)

module _ {D : Type 0} ⦃d : Decimal D⦄ (sv : Auditor D) (tx : Transaction D) where
  -- The operations and the payment that the audit has read.
  abbrev pub HasRead : List Operation → ExpectedPayment D → Type 0
  HasRead ops exp =
      (w : World D) × (w' : World D) × ((sv.operations tx.tx_hash w).0 ≡ ok ops)
      × ((build_expected_payment sv.find_wallet sv.registry sv.fee_wallet tx w').0 ≡ ok exp)

  -- One payment is the expected one, and the fee, where there is one, was paid.
  abbrev pub paid_as_expected : List Operation → ExpectedPayment D → Bool
  paid_as_expected ops exp =
      some_op (is_leg matches_main_leg exp) ops
      && (not (gt exp.fee d.zero) || some_op (is_leg matches_fee_leg exp) ops)

  abbrev pub flagged : List (TxRow D) → List (TxRow D)
  flagged = update_where (λ r. r.id == tx.id) (λ r. record r { status = reconciliation_failed })

  abbrev pub stamped : ℕ → List (TxRow D) → List (TxRow D)
  stamped now = update_where (λ r. r.id == tx.id) (λ r. record r { reconciled_at = some now })

  -- What Horizon has does not bear the transaction out.
  abbrev pub Unsupported : DetailReply → Type 0
  Unsupported reply =
      (reply ≡ not_found)
      ⊎ ((reply ≡ unsuccessful)
          ⊎ ((ops : List Operation) × (exp : ExpectedPayment D) × HasRead ops exp
              × (paid_as_expected ops exp ≡ false)))

  -- What the audit does to the transactions: nothing; or it flags the transaction, which Horizon
  -- does not bear out; or it stamps it, which Horizon does.
  abbrev pub Audited : DetailReply → List (TxRow D) → Result (Unit {0}) × Books D → Type 0
  Audited reply rows p =
      (p.1.world.rows ≡ rows)
      ⊎ (((p.1.world.rows ≡ flagged rows) × Unsupported reply)
          ⊎ ((now : ℕ) × (ops : List Operation) × (exp : ExpectedPayment D) × (p.1.world.rows
                ≡ stamped now rows)
              × HasRead ops exp
              × (paid_as_expected ops exp ≡ true)
              × (reply ≡ successful)))

  write_audit-rows :
      (flags : Bool × Bool × Bool) (o : AuditOutcome) (s : Books D)
      → (write_audit sv tx flags o s).1.world.rows ≡ s.world.rows
  unfolding write_audit write_audit_log
  write_audit-rows flags o s = ground arith

  flag-rows :
      (w : World D)
      → ((update_reconciliation_status tx.id reconciliation_failed w).1.rows ≡ w.rows)
        ⊎ ((update_reconciliation_status tx.id reconciliation_failed w).1.rows ≡ flagged w.rows)
  unfolding update_reconciliation_status exec_update
  flag-rows w = elim (Bool-cases (next_fault w.faults)) [
    | inl f ↦ inl (ground (arith, f))
    | inr n ↦ inr (ground (arith, n))
  ]

  stamp-rows :
      (w : World D)
      → ((update_reconciled_at tx.id w).1.rows ≡ w.rows)
        ⊎ ((update_reconciled_at tx.id w).1.rows ≡ stamped w.now w.rows)
  unfolding update_reconciled_at exec_update
  stamp-rows w = elim (Bool-cases (next_fault w.faults)) [
    | inl f ↦ inl (ground (arith, f))
    | inr n ↦ inr (ground (arith, n))
  ]

  fail_audit-rows :
      (flags : Bool × Bool × Bool) (o : AuditOutcome) (s : Books D)
      → ((fail_audit sv tx flags o s).1.world.rows ≡ s.world.rows)
        ⊎ ((fail_audit sv tx flags o s).1.world.rows ≡ flagged s.world.rows)
  unfolding fail_audit
  fail_audit-rows flags o s =
      let P = λ (p : Result (Unit {0}) × Books D).
        (p.1.world.rows ≡ s.world.rows) ⊎ (p.1.world.rows ≡ flagged s.world.rows) in
      let m = on_world (update_reconciliation_status tx.id reconciliation_failed) in
      continue-holds P (m s) (λ _. write_audit sv tx flags o) (λ e. flag-rows s.world)
        (λ _. elim (flag-rows s.world) [
          | inl h ↦ inl (write_audit-rows flags o (m s).1 ∙ h)
          | inr h ↦ inr (write_audit-rows flags o (m s).1 ∙ h)
        ])

  stamped-Audited :
      (ops : List Operation) (exp : ExpectedPayment D) (s : Books D)
      (p : Result (Unit {0}) × Books D)
      → HasRead ops exp
      → paid_as_expected ops exp ≡ true
      → p.1.world.rows ≡ s.world.rows
      → Audited successful s.world.rows
          (continue p (λ _. logged (on_world (update_reconciled_at tx.id))))
  stamped-Audited ops exp s (err e, s') h paid k = inl k
  stamped-Audited ops exp s (ok _, s') h paid k = elim (stamp-rows s'.world) [
    | inl e ↦ inl (e ∙ k)
    | inr e ↦ inr (inr (s'.world.now, ops, exp, e ∙ ap (stamped s'.world.now) k, h, paid, refl))
  ]

  failed-Audited :
      (ops : List Operation) (exp : ExpectedPayment D) (flags : Bool × Bool × Bool) (s : Books D)
      → HasRead ops exp
      → paid_as_expected ops exp ≡ false
      → Audited successful s.world.rows (fail_audit sv tx flags audit_mismatch s)
  failed-Audited ops exp flags s h unpaid = elim (fail_audit-rows flags audit_mismatch s) [
    | inl e ↦ inl e
    | inr e ↦ inr (inl (e, inr (inr (ops, exp, h, unpaid))))
  ]

  judged :
      (ops : List Operation) (exp : ExpectedPayment D) (s : Books D) (m f : Bool)
      → HasRead ops exp
      → paid_as_expected ops exp ≡ m && f
      → Audited successful s.world.rows (judge sv tx (m, m, f) s)
  unfolding judge
  judged ops exp s true true h e =
      stamped-Audited ops exp s (write_audit sv tx (true, true, true) audit_ok s) h e
        (write_audit-rows (true, true, true) audit_ok s)
  judged ops exp s true false h e = failed-Audited ops exp (true, true, false) s h e
  judged ops exp s false f h e = failed-Audited ops exp (false, false, f) s h e

  judge-Audited :
      (ops : List Operation) (exp : ExpectedPayment D) (s : Books D)
      → HasRead ops exp
      → Audited successful s.world.rows (judge sv tx (verify_ops ops exp) s)
  judge-Audited ops exp s h = rw (verify_ops_lem ops exp) (
      judged ops exp s (some_op (is_leg matches_main_leg exp) ops)
        (not (gt exp.fee d.zero) || some_op (is_leg matches_fee_leg exp) ops) h refl)

  build-Reads :
      IsReading sv → Reads (build_expected_payment sv.find_wallet sv.registry sv.fee_wallet tx)
  unfolding build_expected_payment
  build-Reads r w = grind (arith, r.find_wallet)

  after_build :
      (ops : List Operation) (w : World D) (s : Books D) (rows : List (TxRow D))
      (p : Result (ExpectedPayment D) × World D)
      → (sv.operations tx.tx_hash w).0 ≡ ok ops
      → build_expected_payment sv.find_wallet sv.registry sv.fee_wallet tx s.world ≡ p
      → p.1.rows ≡ rows
      → Audited successful rows
          (continue (p.0, record s { world = p.1 }) (λ exp. judge sv tx (verify_ops ops exp)))
  after_build ops w s rows (err x, w') h e k = inl k
  after_build ops w s rows (ok exp, w') h e k =
      subst
        (λ rs. Audited successful rs (judge sv tx (verify_ops ops exp) (record s { world = w' }))) k
        (judge-Audited ops exp (record s { world = w' }) (w, s.world, h, ap (λ q. q.0) e))

  after_operations :
      (s : Books D) (p : Result (List Operation) × World D)
      → IsReading sv
      → sv.operations tx.tx_hash s.world ≡ p
      → p.1.rows ≡ s.world.rows
      → Audited successful s.world.rows (
          continue
            (p.0, record s { world = p.1 })
            (λ ops.
              on_world (build_expected_payment sv.find_wallet sv.registry sv.fee_wallet tx)
              >>= λ exp. judge sv tx (verify_ops ops exp)))
  after_operations s (err x, w) r e k = inl k
  after_operations s (ok ops, w) r e k =
      after_build ops s.world (record s { world = w }) s.world.rows _ (ap (λ q. q.0) e) refl
        (build-Reads r w ∙ k)

  detail-Audited :
      (reply : DetailReply) (s : Books D)
      → IsReading sv
      → Audited reply s.world.rows (audit_detail sv tx reply s)
  unfolding audit_detail
  detail-Audited unavailable s r = inl refl
  detail-Audited not_found s r = elim (fail_audit-rows (false, false, false) audit_not_found s) [
    | inl h ↦ inl h
    | inr h ↦ inr (inl (h, inl refl))
  ]
  detail-Audited unsuccessful s r = elim (fail_audit-rows (false, false, false) audit_not_found s) [
    | inl h ↦ inl h
    | inr h ↦ inr (inl (h, inr (inl refl)))
  ]
  detail-Audited successful s r =
      after_operations s (sv.operations tx.tx_hash s.world) r refl (r.operations tx.tx_hash s.world)

  -- The audit of a transaction leaves the table as it is; or it marks the transaction as failed,
  -- and then Horizon does not have it, has it as unsuccessful, or has no payment of its net amount,
  -- asset and ends or none of its fee; or it marks it as reconciled, and then Horizon has it as
  -- successful with both; where the reads leave the transactions as they are.
  pub check_transaction-Audited :
      (s : Books D)
      → IsReading sv
      → Audited (next_detail s.world.detail_replies) s.world.rows (check_transaction sv tx s)
  unfolding check_transaction transaction_detail
  check_transaction-Audited s r = detail-Audited (next_detail s.world.detail_replies) _ r
