-- ===== src/Compliance/Service.antt =====
-- internal/compliance/service.go: screening with its audit row, and the decision on a held transfer.
use flowx.Prelude.{
  ℕ, String, Bool, true, false, Option, none, some, [], ◌∷◌, ◌==◌, nullable, if◌then◌else◌,
  string_eq,
}
use flowx.Prelude.Int.{pos}
use flowx.Decimal.{Decimal, equal}
use flowx.Exec.{review_not_pending, pure, raise, gets, logged, catch, ◌>>=◌, ◌>>◌}
use flowx.Domain.{
  Transaction, ScreeningRequest, ScreeningDecision, ComplianceReview, ComplianceBlock,
  transfer_compliance_hold, transfer_compliance_approved, transfer_compliance_rejected,
}
use flowx.Domain.Status.{
  ScreeningStatus, hold, blocked, ReviewStatus, pending, approved, rejected, failed,
  TransactionStatus, review_status_eq,
}
use flowx.World.{Action, draw, dispatch, enqueue_transfer}
use flowx.TxRepo.{update_status}
use flowx.Compliance.Repo.{create_review, get_review, decide_review, create_block}
use flowx.Compliance.Screener.{Screener}

-- What stands for the result of a screener that fails.
abbrev pub screener_error_decision : ScreeningDecision
screener_error_decision = record {
  status = hold;
  rules_fired = "screener_error" ∷ [];
  reason = "screening could not be completed";
  risk_score = pos 50;
  matched_entity = "";
  block_id = "";
}

abbrev pub is_blocked : ScreeningStatus → Bool
is_blocked blocked = true
is_blocked _ = false

-- The context: its tenant and its user, "" for none.
pub record Context : Type 0 where
  pub tenant : String
  pub user : String

module _ {D : Type 0} ⦃d : Decimal D⦄ (uuid : ℕ → String) where
  -- `amountPtr`
  abbrev amount_ptr : D → Option D
  amount_ptr a = if equal a d.zero then none else some a

  abbrev pub block_record : String → ScreeningRequest D → ScreeningDecision → ℕ → ComplianceBlock D
  block_record id req decision now = record {
    id = id;
    org_id = nullable req.org_id;
    from_wallet_id = nullable req.from_wallet_id;
    to_wallet_id = nullable req.to_wallet_id;
    to_address = req.to_public_key;
    asset = req.asset;
    amount = amount_ptr req.amount;
    rules_fired = decision.rules_fired;
    reason = decision.reason;
    matched_entity = decision.matched_entity;
    created_at = now;
  }

  -- The block's row; the decision carries its id only if it was written.
  unfoldable pub record_block :
      Context → ScreeningRequest D → ScreeningDecision → Action D ScreeningDecision
  unfolding create_block
  record_block ctx req decision = do
    id ← draw uuid
    now ← gets (λ w. w.now)
    catch
        (do
          create_block ctx.tenant (block_record id req decision now)
          pure (record decision { block_id = id }))
        (λ _. pure decision)

  -- `ScreenTransfer`, which never returns an error
  unfoldable pub screen_transfer :
      Screener D → Context → ScreeningRequest D → Action D ScreeningDecision
  unfolding record_block
  screen_transfer s ctx req = do
    decision ← catch (s.screen req) (λ _. pure screener_error_decision)
    if is_blocked decision.status then record_block ctx req decision else pure decision

  -- `RecordHold`
  unfoldable pub record_hold : Context → Transaction D → ScreeningDecision → Action D (Unit {0})
  unfolding create_review
  record_hold ctx tx decision = do
    id ← draw uuid
    now ← gets (λ w. w.now)
    create_review ctx.tenant (record {
      id = id;
      transaction_id = tx.id;
      org_id = tx.tenant_id;
      status = pending;
      risk_score = decision.risk_score;
      rules_fired = decision.rules_fired;
      reason = decision.reason;
      reviewed_by = none;
      review_notes = "";
      reviewed_at = none;
      created_at = now;
    })
    dispatch transfer_compliance_hold tx.id

module _ {D : Type 0} where
  -- `releaseTransfer`, with the queue there or not; a failed enqueue is logged
  unfoldable pub release_transfer : Bool → Context → String → Action D (Unit {0})
  release_transfer has_queue ctx id = do
    update_status ctx.tenant id TransactionStatus.pending ""
    if has_queue then logged (enqueue_transfer id) else pure tt

  -- `decide`
  unfoldable pub decide :
      Bool → Context → String → ReviewStatus → String → Action D ComplianceReview
  decide has_queue ctx id outcome notes = do
    review ← get_review ctx.tenant id
    if review.status == pending then pure tt else raise review_not_pending
    now ← gets (λ w. w.now)
    decide_review ctx.tenant id outcome (nullable ctx.user) notes now
    (if outcome == approved
        then (do
          release_transfer has_queue ctx review.transaction_id
          dispatch transfer_compliance_approved review.transaction_id)
        else (do
          update_status ctx.tenant review.transaction_id failed ""
          dispatch transfer_compliance_rejected review.transaction_id))
    pure (record review {
      status = outcome;
      reviewed_by = nullable ctx.user;
      review_notes = notes;
      reviewed_at = some now;
    })

  -- `ApproveReview`, `RejectReview`
  unfoldable pub approve_review : Bool → Context → String → String → Action D ComplianceReview
  unfolding decide
  approve_review has_queue ctx id notes = decide has_queue ctx id approved notes

  unfoldable pub reject_review : Bool → Context → String → String → Action D ComplianceReview
  unfolding decide
  reject_review has_queue ctx id notes = decide has_queue ctx id rejected notes
