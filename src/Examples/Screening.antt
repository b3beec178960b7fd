-- ===== src/Examples/Screening.antt =====
-- The theorems on screening, reviews, text distance and fees.
use flowx.Prelude.{
  ◌+◌, ◌≤◌, ◌≡◌, ◌≢◌, refl, inl, inr, true, false, none, some, List, [], ◌∷◌, arith, min, string_eq,
}
use flowx.Prelude.Int.{ℤ, pos, int_eq}
use flowx.Decimal.Laws.{Le}
use flowx.Decimal.Scaled.{scaled, scaled-IsDecimal}
use flowx.Exec.{call_failed, chain_error, ok, err, pure, raise}
use flowx.Domain.{ScreeningRequest, ScreeningDecision, ComplianceReview, FeeSchedule}
use flowx.Domain.Status.{
  pending, approved, rejected, compliance_hold, clear, severity, review_status_eq, tx_status_eq,
}
use flowx.World.{World}
use flowx.Table.{query_row, update_where}
use flowx.TxRepo.{update_status}
use flowx.Compliance.Repo.{get_review, decide_review}
use flowx.Compliance.Screener.{Screener, clear_decision, screen_composite}
use flowx.Compliance.Restrictive.{
  contributions, worst, top_score, all_rules, screen_composite_lem, fail_closed,
}
use flowx.Compliance.Service.{Context, decide, release_transfer}
use flowx.Compliance.Review.{
  Decision, run_decisions, Enqueues, open_reviews, decide_once, decide-Enqueues, approve_stuck,
}
use flowx.Compliance.Levenshtein.{levenshtein_at_most}
use flowx.Compliance.Levenshtein.Scripts.{
  Script, done, swap, insert, price, levenshtein-le-price, levenshtein_attained,
}
use flowx.Fees.{fee_by_schedule}
use flowx.Fees.Split.{HasBounds, Capped, fee_split}
use flowx.Examples.{row, world}

abbrev pub request : ScreeningRequest ℤ
request = record {
  org_id = "acme";
  from_wallet_id = "w1";
  to_wallet_id = "w2";
  from_public_key = "k1";
  to_public_key = "k2";
  to_federation = "";
  asset = "USDC";
  amount = pos 100;
}

abbrev screeners : List (Screener ℤ)
screeners =
    record { name = "velocity"; screen = λ q. pure clear_decision }
    ∷ record { name = "sanctions"; screen = λ q. raise chain_error }
    ∷ []

screen_composite_example :
    (res : ScreeningDecision) × ((screen_composite screeners request (world [])).0 ≡ ok res)
    × (severity res.status ≡ worst (contributions screeners request (world [])))
    × (res.risk_score ≡ top_score (pos 0) (contributions screeners request (world [])))
    × (res.rules_fired ≡ all_rules (contributions screeners request (world [])))
screen_composite_example = screen_composite_lem screeners request (world [])

fail_closed_example :
    (res : ScreeningDecision) × ((screen_composite screeners request (world [])).0 ≡ ok res)
    × (res.status ≢ clear)
fail_closed_example = fail_closed screeners request (world []) refl

abbrev held_review : ComplianceReview
held_review = record {
  id = "r1";
  transaction_id = "t1";
  org_id = some "acme";
  status = pending;
  risk_score = pos 50;
  rules_fired = [];
  reason = "velocity";
  reviewed_by = none;
  review_notes = "";
  reviewed_at = none;
  created_at = 5;
}

abbrev held : World ℤ
held = record (world (row "t1" compliance_hold ∷ [])) { reviews = held_review ∷ [] }

abbrev officer : Context
officer = record { tenant = "acme"; user = "u1" }

abbrev decided_review : ComplianceReview
decided_review = record held_review {
  status = approved;
  reviewed_by = some "u1";
  review_notes = "fine";
  reviewed_at = some 1000;
}

abbrev decisions : List Decision
decisions = record { context = officer; review_id = "r1"; outcome = rejected; notes = "no" } ∷ []

decide_once_example :
    (decide true officer "r1" rejected "late"
      (run_decisions true decisions (decide true officer "r1" approved "fine" held).1)).0
    ≢ ok decided_review
unfolding decide get_review decide_review release_transfer query_row update_where update_status
decide_once_example =
    decide_once true officer officer "r1" "fine" "late" approved rejected held decisions
      {r = decided_review} decided_review refl (inl refl) (inr refl, tt) refl

decide-Enqueues_example :
    Enqueues approved held.queue
      (decide true officer "r1" approved "fine" held).0
      (decide true officer "r1" approved "fine" held).1.queue
decide-Enqueues_example = decide-Enqueues true officer "r1" "fine" approved held

abbrev failing : World ℤ
failing = record held { faults = false ∷ false ∷ true ∷ [] }

approve_stuck_example :
    ((decide true officer "r1" approved "fine" failing).0 ≡ err call_failed)
    × ((decide true officer "r1" approved "fine" failing).1.rows ≡ failing.rows)
    × ((decide true officer "r1" approved "fine" failing).1.queue ≡ failing.queue)
    × (open_reviews "acme" "r1" (decide true officer "r1" approved "fine" failing).1 ≡ 0)
unfolding query_row
approve_stuck_example = approve_stuck true officer "r1" "fine" failing held_review [] refl refl refl

-- "ab" and "acd"
abbrev edits : Script (97 ∷ 98 ∷ []) (97 ∷ 99 ∷ 100 ∷ [])
edits = swap 97 97 (swap 98 99 (insert 100 done))

levenshtein-le-price_example :
    levenshtein_at_most (97 ∷ 98 ∷ []) (97 ∷ 99 ∷ 100 ∷ []) (pos 2) ≤ min (price edits) (2 + 1)
levenshtein-le-price_example = levenshtein-le-price (97 ∷ 98 ∷ []) (97 ∷ 99 ∷ 100 ∷ []) 2 edits

levenshtein_attained_example :
    (s : Script (97 ∷ 98 ∷ []) (97 ∷ 99 ∷ 100 ∷ [])) × (price s
      ≡ levenshtein_at_most (97 ∷ 98 ∷ []) (97 ∷ 99 ∷ 100 ∷ []) (pos 2))
unfolding levenshtein_at_most
levenshtein_attained_example =
    levenshtein_attained (97 ∷ 98 ∷ []) (97 ∷ 99 ∷ 100 ∷ []) 2 (omega arith)

-- 0.5 %, between 0.000001 and 1
abbrev schedule : FeeSchedule ℤ
schedule = record {
  transfer_fee_bps = pos 50;
  conversion_fee_bps = pos 80;
  min_fee_amount = pos 10;
  max_fee_amount = some (pos 10_000_000);
}

schedule-HasBounds : HasBounds scaled-IsDecimal schedule
schedule-HasBounds = (refl, λ m e. ground arith)

fee_split_example :
    let f = fee_by_schedule schedule (pos 500_000_000) true in
    (scaled.add f.net_amount f.fee_amount ≡ pos 500_000_000)
    × Le (pos 0) f.fee_amount
    × Le f.fee_amount (pos 500_000_000)
    × Le (pos 0) f.net_amount
    × Capped scaled-IsDecimal schedule.max_fee_amount f.fee_amount
fee_split_example =
    fee_split scaled-IsDecimal schedule (pos 500_000_000) true schedule-HasBounds refl
