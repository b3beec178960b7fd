-- ===== src/Examples/Checking.antt =====
-- The theorems on reconciliation and batches.
use flowx.Prelude.{
  ◌+◌, ◌<◌, ◌≡◌, ◌↔◌, ◌⊎◌, refl, inl, inr, String, true, not, ◌||◌, Option, none, some, or_empty,
  ap, List, [], ◌∷◌, arith, length, count, ◌==◌, if◌then◌else◌, string_eq,
}
use flowx.Prelude.Int.{ℤ, pos, ◌-ℤ◌, eqb_ℤ, int_eq}
use flowx.Decimal.{Decimal, gt}
use flowx.Decimal.Laws.{IsDecimal}
use flowx.Decimal.Scaled.{scaled, scaled-IsDecimal}
use flowx.Exec.{call_failed, Result, ok, err, pure}
use flowx.Domain.{net_amount, Transaction}
use flowx.Domain.Status.{
  pending, confirmed, failed, compliance_hold, BatchStatus, processing, completed, tx_status_eq,
}
use flowx.World.{World, Payment, successful}
use flowx.Submission.{next_detail}
use flowx.Settlement.{payments, build_asset, main_payment, fee_payment}
use flowx.Reconcile.Verify.{
  PaymentFields, Operation, payment, ExpectedPayment, is_leg, some_op, matches_main_leg,
  matches_fee_leg, verify_ops, verify_ops_lem, build_expected_payment,
}
use flowx.Reconcile.Settled.{IsReport, reported, Verified, settled_verifies}
use flowx.Reconcile.Pending.{check_pending_transaction}
use flowx.Reconcile.Corrections.{Corrected, check_corrects}
use flowx.Reconcile.Recover.{recover_all, recover_pending}
use flowx.Reconcile.Holds.{view, is_error, recover_all_holds, recover_pending_null}
use flowx.Batch.{with_status, aggregate_status, Item, create_batch}
use flowx.Batch.Status.{aggregate_final, aggregate_held}
use flowx.Batch.Items.{BatchOf, create_batch_items}
use flowx.Examples.{transaction, wallet, world}
use flowx.Examples.Moving.{services, acme, engine, one_pending}

-- amounts with a text for 90 and for 10
abbrev two_amounts : Decimal ℤ
two_amounts = record scaled {
  string_fixed7 = λ a. if eqb_ℤ a (pos 90) then "90" else "10";
  parse = λ s. if s == "90" then some (pos 90) else if s == "10" then some (pos 10) else none;
}

two_amounts-IsDecimal : IsDecimal two_amounts
two_amounts-IsDecimal = record {
  add_comm = scaled-IsDecimal.add_comm;
  add_assoc = scaled-IsDecimal.add_assoc;
  add-zero = scaled-IsDecimal.add-zero;
  sub-add = scaled-IsDecimal.sub-add;
  leq_refl = scaled-IsDecimal.leq_refl;
  leq_trans = scaled-IsDecimal.leq_trans;
  leq_antisymm = scaled-IsDecimal.leq_antisymm;
  leq_total = scaled-IsDecimal.leq_total;
  leq-add = scaled-IsDecimal.leq-add;
}

abbrev asset_type : Option String → String
asset_type none = "native"
asset_type (some i) = "credit_alphanum4"

abbrev report : String → Payment → PaymentFields
report source p = record {
  from = source;
  to = p.destination;
  amount = p.amount;
  asset_type = asset_type p.issuer;
  asset_code = p.asset_code;
  asset_issuer = or_empty p.issuer;
}

report-IsReport : IsReport report
report-IsReport = record {
  from = λ s p. refl;
  to = λ s p. refl;
  amount = λ s p. refl;
  native = λ s p e. ap asset_type e;
  credit = λ s p i e. (ap (λ o. asset_type o == "native") e, (refl, ap or_empty e));
}

abbrev usdc : String × Option String
usdc = ("USDC", some "issuer")

abbrev two_payments : List Payment
two_payments =
    main_payment ⦃d = two_amounts⦄ engine (transaction "t1" pending) (wallet "w2") usdc
    ∷ fee_payment ⦃d = two_amounts⦄ engine (transaction "t1" pending) usdc
    ∷ []

abbrev registry : String → Option (String × String)
registry code = some (code, "issuer")

settled_verifies_example :
    Verified ⦃d = two_amounts⦄
      (reported ⦃d = two_amounts⦄ two_amounts-IsDecimal report report-IsReport engine
        (transaction "t1" pending)
        (wallet "w1")
        (wallet "w2")
        two_payments)
      (build_expected_payment ⦃d = two_amounts⦄
        (λ id. pure (wallet id))
        registry
        "fees"
        (transaction "t1" pending)
        one_pending).0
unfolding build_asset payments net_amount ◌-ℤ◌
settled_verifies_example =
    settled_verifies ⦃d = two_amounts⦄ two_amounts-IsDecimal report report-IsReport engine
      (transaction "t1" pending) (wallet "w1") (wallet "w2") (λ id. pure (wallet id)) registry
      one_pending one_pending usdc two_payments (refl, refl, (λ u. refl), (λ u. refl)) refl refl
      refl (refl, refl) (refl, refl)

-- One payment to the fee wallet, where it is the destination and the net amount is the fee.
abbrev to_fees : ExpectedPayment ℤ
to_fees = record {
  from_public_key = "w1";
  to_public_key = "fees";
  asset_code = "XLM";
  asset_issuer = "";
  net_amount = pos 10;
  fee = pos 10;
  fee_wallet = "fees";
}

abbrev one_payment : List Operation
one_payment =
    payment "payment" (record {
      from = "w1";
      to = "fees";
      amount = "10";
      asset_type = "native";
      asset_code = "";
      asset_issuer = "";
    })
    ∷ []

verify_ops_example : verify_ops ⦃d = two_amounts⦄ one_payment to_fees ≡ (
  some_op (is_leg ⦃d = two_amounts⦄ (matches_main_leg ⦃d = two_amounts⦄) to_fees) one_payment,
  some_op (is_leg ⦃d = two_amounts⦄ (matches_main_leg ⦃d = two_amounts⦄) to_fees) one_payment,
  not (gt ⦃d = two_amounts⦄ (pos 10) (pos 0))
      || some_op (is_leg ⦃d = two_amounts⦄ (matches_fee_leg ⦃d = two_amounts⦄) to_fees) one_payment,
)
verify_ops_example = verify_ops_lem ⦃d = two_amounts⦄ one_payment to_fees

abbrev stuck : List (Transaction ℤ)
stuck = transaction "t1" pending ∷ transaction "t2" compliance_hold ∷ []

recover_all_holds_example : view "t2" (recover_all stuck one_pending).1 ≡ view "t2" one_pending
recover_all_holds_example = recover_all_holds "t2" stuck one_pending (inl refl, (inr refl, tt))

-- what pgx does with NULL for a Go string
abbrev scan_string : Option String → Result String
scan_string none = err call_failed
scan_string (some s) = ok s

recover_pending_null_example :
    (is_error (recover_pending scan_string one_pending).0 ≡ true)
    × (((recover_pending scan_string one_pending).1.rows ≡ one_pending.rows)
        × ((recover_pending scan_string one_pending).1.queue ≡ []))
recover_pending_null_example = recover_pending_null scan_string refl one_pending (omega arith)

aggregate_final_example :
    ((aggregate_status stuck ≡ completed)
      ↔ ((0 < length stuck) × (count (with_status confirmed) stuck ≡ length stuck)))
    × ((aggregate_status stuck ≡ BatchStatus.failed)
        ↔ ((0 < length stuck) × (count (with_status failed) stuck ≡ length stuck)))
aggregate_final_example = aggregate_final stuck

aggregate_held_example :
    ((aggregate_status stuck ≡ BatchStatus.pending)
      ⊎ ((aggregate_status stuck ≡ processing)
          ⊎ (aggregate_status stuck ≡ BatchStatus.compliance_hold)))
    × ((aggregate_status stuck ≡ BatchStatus.compliance_hold) ↔ (
        count (with_status confirmed) stuck
          + count (with_status failed) stuck
          + count (with_status compliance_hold) stuck
        ≡ length stuck))
aggregate_held_example = aggregate_held stuck (omega arith)

abbrev items : List (Item ℤ)
items =
    record {
      to_wallet_id = "w2";
      to_address = "";
      asset = "USDC";
      amount = pos 100;
      reference = "";
    }
    ∷ []

create_batch_items_example :
    BatchOf services acme
      (λ b. pure tt)
      "w1"
      items
      (world [])
      (create_batch services acme (λ b. pure tt) "w1" items (world []))
create_batch_items_example = create_batch_items services acme (λ b. pure tt) "w1" items (world [])

-- a transaction in flight that Horizon reports as settled
abbrev in_flight : Transaction ℤ
in_flight = record (transaction "t1" pending) { tx_hash = "abc" }

abbrev one_settled : World ℤ
one_settled = record one_pending { detail_replies = successful ∷ [] }

check_corrects_example :
    Corrected
      (next_detail one_settled.detail_replies)
      "t1"
      one_settled
      (check_pending_transaction in_flight one_settled)
check_corrects_example = check_corrects in_flight one_settled
