-- ===== src/Examples/Moving.antt =====
-- The theorems on transfers and settlement.
use flowx.Prelude.{count, ◌≡◌, ◌⊎◌, refl, inr, true, false, none, some, List, [], ◌∷◌, string_eq}
use flowx.Prelude.Int.{ℤ, pos, int_eq}
use flowx.Decimal.Scaled.{scaled}
use flowx.Exec.{submission_ambiguous, submission_rejected, ok, err, pure}
use flowx.Domain.{FeeSchedule}
use flowx.Domain.Status.{pending, submitted, tx_status_eq}
use flowx.World.{World, Envelope, SubmitReply, refused}
use flowx.TxRepo.{get_by_id, claim_for_submission, update_status}
use flowx.Compliance.Screener.{Screener, clear_decision}
use flowx.Compliance.Service.{Context}
use flowx.Transfer.Service.{Services, TransferRequest, initiate}
use flowx.Transfer.Reads.{Cleared}
use flowx.Transfer.Outcome.{Initiated, IsOf, IsScreening}
use flowx.Transfer.Gate.{initiate_gate}
use flowx.Submission.{is_retryable}
use flowx.Settlement.{Engine, submit_transfer, settle}
use flowx.Settlement.Sends.{Copied, submit_transfer_sends}
use flowx.Settlement.Outcome.{unsettled, ambiguous_stays, refused_retry_fails}
use flowx.Examples.{row, transaction, wallet, world}

abbrev clear_all : Screener ℤ
clear_all = record { name = "clear"; screen = λ q. pure clear_decision }

abbrev no_fee : FeeSchedule ℤ
no_fee = record {
  transfer_fee_bps = pos 0;
  conversion_fee_bps = pos 0;
  min_fee_amount = pos 0;
  max_fee_amount = none;
}

abbrev pub services : Services ℤ
services = record {
  find_wallet = λ id. pure (wallet id);
  find_tenant = none;
  load_account = none;
  get_balances = λ id. pure ("USDC" ∷ []);
  get_schedule = λ o asset. pure no_fee;
  screener = some clear_all;
  has_queue = true;
  uuid = λ n. "id";
}

abbrev pub acme : Context
acme = record { tenant = "acme"; user = "u1" }

abbrev request : TransferRequest ℤ
request = record {
  from_id = "w1";
  to_id = "w2";
  to_address = "";
  asset = "USDC";
  amount = pos 100;
  batch_id = "";
  reference = "";
  idempotency_key = "";
}

initiate_gate_example :
    Initiated
      (Cleared (IsScreening services acme request) services.screener)
      (IsOf acme request)
      (world [])
      (initiate services acme request (world []))
initiate_gate_example =
    initiate_gate services acme (λ x w. refl) tt tt (λ x w. refl) (λ o x w. refl) (λ x w. refl)
      request (world [])

abbrev envelope : Envelope
envelope = record { source = "w1"; payments = []; hash = "h1" }

abbrev pub engine : Engine ℤ
engine = record {
  find_wallet = λ id. pure (wallet id);
  load_account = λ key. pure [];
  build = λ source ps secret phrase. some envelope;
  network = "testnet";
  issuer_of = λ code. some "issuer";
  fee_wallet = "fees";
  context_done = λ n. false;
  tenant = "acme";
}

abbrev pub one_pending : World ℤ
one_pending = world (row "t1" pending ∷ [])

submit_transfer_sends_example :
    ((submit_transfer engine "t1" one_pending).1.sent ≡ [])
    ⊎ (((claim_for_submission "t1" (get_by_id "acme" "t1" one_pending).1).0 ≡ ok tt)
        × ((e : Envelope) × Copied 3 e [] (submit_transfer engine "t1" one_pending).1.sent))
submit_transfer_sends_example =
    submit_transfer_sends engine (λ x w. refl) (λ x w. refl) "t1" one_pending

abbrev claimed : List SubmitReply → World ℤ
claimed replies = record (world (row "t1" submitted ∷ [])) { submit_replies = replies }

abbrev time_outs : World ℤ
time_outs = claimed (refused "timeout" ∷ refused "503" ∷ refused "429" ∷ [])

ambiguous_stays_example :
    let p =
      settle engine (transaction "t1" pending) (wallet "w1") (wallet "w2") envelope time_outs in
    (p.0 ≡ err submission_ambiguous)
    × (p.1.sent ≡ envelope ∷ envelope ∷ envelope ∷ [])
    × (p.1.rows ≡ (update_status "acme" "t1" submitted "h1" time_outs).1.rows)
unfolding is_retryable
ambiguous_stays_example =
    ambiguous_stays engine (transaction "t1" pending) (wallet "w1") (wallet "w2") envelope time_outs
      "timeout" "503" "429" [] refl refl refl refl refl refl (inr refl)

abbrev late_refusal : World ℤ
late_refusal = claimed (refused "timeout" ∷ refused "tx_bad_seq" ∷ [])

refused_retry_fails_example :
    let p =
      settle engine (transaction "t1" pending) (wallet "w1") (wallet "w2") envelope late_refusal in
    (p.0 ≡ err submission_rejected)
    × (p.1.sent ≡ envelope ∷ envelope ∷ [])
    × (p.1.detail_replies ≡ [])
    × (count (unsettled "acme" "t1") p.1.rows ≡ 0)
unfolding is_retryable
refused_retry_fails_example =
    refused_retry_fails engine (transaction "t1" pending) (wallet "w1") (wallet "w2") envelope
      late_refusal "timeout" "tx_bad_seq" [] refl refl refl refl refl refl
