-- ===== src/Settlement/Outcome.antt =====
-- What the answers of Horizon to the attempts make of a transaction.
use mathlib.Core.Path.{subst}
use flowx.Prelude.{
  not, ◌&&◌, [], count, nullable, string_eq, ◌==◌, sym, ℕ, suc, ◌≡◌, refl, ap, ◌∙◌, zero, String,
  Bool, true, false, List, ◌∷◌, arith, ◌⊎◌, inl, inr,
}
use flowx.Decimal.{Decimal}
use flowx.Exec.{ok, err, continue, submission_ambiguous, submission_rejected}
use flowx.Domain.{Transaction, Wallet}
use flowx.Domain.Status.{TransactionStatus, submitted, failed, tx_status_eq}
use flowx.World.{World, TxRow, rest_faults, Envelope, SubmitReply, refused, not_found, unavailable}
use flowx.TxRepo.{update_status, unconfirmed, hash_taken, same_hash}
use flowx.Table.{update_where, count-update_where_zero, count-update_where_out}
use flowx.Submission.{
  SubmitOutcome, submit_once, submit_loop, submit_with_retry, outcome_ambiguous, outcome_rejected,
  is_retryable, next_detail, transaction_detail,
}
use flowx.Settlement.{Engine, try_resolve_ambiguous, conclude, settle}

module _ {D : Type 0} where
  loop-rows :
      (done : ℕ → Bool) (e : Envelope) (left n : ℕ) (last : String) (w : World D)
      → (submit_loop done e left n last w).1.rows ≡ w.rows
  unfolding submit_loop submit_once
  loop-rows done e zero n last w = refl
  loop-rows done e (suc left) n last w =
      grind (arith, λ (t : String). loop-rows done e left (suc n) t (submit_once e w).1)

-- Where no database call fails and no other row has the hash, `UpdateStatus` sets the status of
-- the transaction unless that is confirmed.
module _ {D : Type 0} ⦃d : Decimal D⦄ (tenant id hash : String) (status : TransactionStatus)
    (w : World D) where
  abbrev updated : World D
  updated = record w {
    rows =
        update_where (unconfirmed tenant id)
          (λ r. record r { status = status; tx_hash = nullable hash }) w.rows;
    faults = rest_faults w.faults;
  }

  update_status_lem :
      w.faults ≡ []
      → hash_taken id (nullable hash) w.rows ≡ false
      → update_status tenant id status hash w ≡ (ok tt, updated)
  unfolding update_status
  update_status_lem f k = ground (arith, f, k)

  hash_taken-updated :
      hash_taken id (nullable hash) w.rows ≡ false
      → hash_taken id (nullable hash) updated.rows ≡ false
  hash_taken-updated k =
      let zero_rows =
        count-update_where_zero (λ r. not (r.id == id) && same_hash (nullable hash) r.tx_hash)
          (unconfirmed tenant id) (λ r. record r { status = status; tx_hash = nullable hash })
          w.rows (λ r p q. ground (arith, p)) (ground (arith, k)) in
      ground (arith, zero_rows)

-- The rows of a transaction that are neither confirmed nor failed.
abbrev pub unsettled : {D : Type 0} → String → String → TxRow D → Bool
unsettled tenant id r = unconfirmed tenant id r && not (r.status == failed)

unsettled-updated :
    {D : Type 0} ⦃d : Decimal D⦄ (tenant id hash : String) (w : World D)
    → count (unsettled tenant id) (updated tenant id hash failed w).rows ≡ 0
unsettled-updated tenant id hash w =
    count-update_where_out (unsettled tenant id) (unconfirmed tenant id)
      (λ r. record r { status = failed; tx_hash = nullable hash }) w.rows (λ r p. ground (arith, p))
      (λ r p. ground arith)

module _ {D : Type 0} ⦃d : Decimal D⦄ (eng : Engine D) (tx : Transaction D) (src dst : Wallet)
    (e : Envelope) (w : World D) where
  -- the state in which the first attempt is made
  abbrev pub recorded : World D
  recorded = (update_status eng.tenant tx.id submitted e.hash w).1

  update_status-replies : recorded.submit_replies ≡ w.submit_replies
  unfolding update_status
  update_status-replies = ground arith

  update_status-sent : recorded.sent ≡ w.sent
  unfolding update_status
  update_status-sent = ground arith

  update_status-details : recorded.detail_replies ≡ w.detail_replies
  unfolding update_status
  update_status-details = ground arith

  update_status-faults : w.faults ≡ [] → recorded.faults ≡ []
  unfolding update_status
  update_status-faults f = ground (arith, f)

  -- the state after the last attempt
  abbrev pub attempted : World D
  attempted = (submit_with_retry eng.context_done e recorded).1

  settle_outcome :
      (o : SubmitOutcome)
      → (submit_with_retry eng.context_done e recorded).0 ≡ ok o
      → settle eng tx src dst e w ≡ conclude eng tx e.hash src dst o attempted
  unfolding settle
  settle_outcome o h = ap (λ r. continue (r, attempted) (conclude eng tx e.hash src dst)) h

  second_refusal :
      (first second : String) (rest : List SubmitReply)
      → w.submit_replies ≡ refused first ∷ refused second ∷ rest
      → is_retryable first ≡ true
      → is_retryable second ≡ false
      → eng.context_done 1 ≡ false
      → w.faults ≡ []
      → ((submit_with_retry eng.context_done e recorded).0 ≡ ok (outcome_rejected second))
        × (attempted.sent ≡ e ∷ e ∷ w.sent)
        × (attempted.detail_replies ≡ w.detail_replies)
        × (attempted.faults ≡ [])
  unfolding submit_with_retry submit_loop submit_once
  second_refusal first second rest h r1 r2 c f = (
    grind (arith, update_status-replies),
    grind (arith, update_status-replies, update_status-sent),
    grind (arith, update_status-replies, update_status-details),
    grind (arith, update_status-replies, update_status-faults),
  )

  rejected :
      (t : String) (s : World D)
      → conclude eng tx e.hash src dst (outcome_rejected t) s
        ≡ (err submission_rejected, (update_status eng.tenant tx.id failed e.hash s).1)
  unfolding conclude
  rejected t s = refl

  -- The last status of the transaction, where the attempts left the rows and no call fails.
  failing :
      (s : World D)
      → s.faults ≡ []
      → s.rows ≡ recorded.rows
      → w.faults ≡ []
      → hash_taken tx.id (nullable e.hash) w.rows ≡ false
      → update_status eng.tenant tx.id failed e.hash s
        ≡ (ok tt, updated eng.tenant tx.id e.hash failed s)
  failing s f rows g k =
      let first = update_status_lem eng.tenant tx.id e.hash submitted w g k in
      update_status_lem eng.tenant tx.id e.hash failed s f (
        ap (hash_taken tx.id (nullable e.hash)) (rows ∙ ap (λ p. p.1.rows) first)
        ∙ hash_taken-updated eng.tenant tx.id e.hash submitted w k)

  -- Where the first attempt ends in an error that is retried and the second is refused, the engine
  -- looks up no hash, and no row of the transaction that is not confirmed is left with a status
  -- other than failed, although the first attempt may have been applied: where no database call
  -- fails and no other row has the hash.
  pub refused_retry_fails :
      (first second : String) (rest : List SubmitReply)
      → w.submit_replies ≡ refused first ∷ refused second ∷ rest
      → is_retryable first ≡ true
      → is_retryable second ≡ false
      → eng.context_done 1 ≡ false
      → w.faults ≡ []
      → hash_taken tx.id (nullable e.hash) w.rows ≡ false
      → ((settle eng tx src dst e w).0 ≡ err submission_rejected)
        × ((settle eng tx src dst e w).1.sent ≡ e ∷ e ∷ w.sent)
        × ((settle eng tx src dst e w).1.detail_replies ≡ w.detail_replies)
        × (count (unsettled eng.tenant tx.id) (settle eng tx src dst e w).1.rows ≡ 0)
  unfolding submit_with_retry
  refused_retry_fails first second rest h r1 r2 c f k =
      let (o, sent, details, faults) = second_refusal first second rest h r1 r2 c f in
      let done = failing attempted faults (loop-rows eng.context_done e 3 0 "" recorded) f k in
      let same =
        settle_outcome (outcome_rejected second) o
        ∙ rejected second attempted
        ∙ ap (λ p. (err submission_rejected, p.1)) done in
      (
        ap (λ p. p.0) same,
        ap (λ p. p.1.sent) same ∙ sent,
        ap (λ p. p.1.detail_replies) same ∙ details,
        ap (λ p. count (unsettled eng.tenant tx.id) p.1.rows) same
            ∙ unsettled-updated eng.tenant tx.id e.hash attempted,
      )

  unresolved :
      (t : String) (s : World D)
      → (next_detail s.detail_replies ≡ not_found) ⊎ (next_detail s.detail_replies ≡ unavailable)
      → conclude eng tx e.hash src dst (outcome_ambiguous t) s
        ≡ (err submission_ambiguous, (transaction_detail e.hash s).1)
  unfolding conclude try_resolve_ambiguous transaction_detail
  unresolved t s (inl k) = grind arith
  unresolved t s (inr k) = grind arith

  -- Three refusals that are retried leave the outcome open, after three requests.
  three_refusals :
      (first second third : String) (rest : List SubmitReply)
      → w.submit_replies ≡ refused first ∷ refused second ∷ refused third ∷ rest
      → is_retryable first ≡ true
      → is_retryable second ≡ true
      → is_retryable third ≡ true
      → eng.context_done 1 ≡ false
      → eng.context_done 2 ≡ false
      → ((submit_with_retry eng.context_done e recorded).0 ≡ ok (outcome_ambiguous third))
        × (attempted.sent ≡ e ∷ e ∷ e ∷ w.sent)
        × (attempted.detail_replies ≡ w.detail_replies)
  unfolding submit_with_retry submit_loop submit_once
  three_refusals first second third rest h r1 r2 r3 c1 c2 = (
    grind (arith, update_status-replies),
    grind (arith, update_status-replies, update_status-sent),
    grind (arith, update_status-replies, update_status-details),
  )

  -- Where Horizon answers three attempts with errors that are retried and the lookup of the hash
  -- finds no verdict, the engine has sent the same envelope three times, reports the outcome as
  -- ambiguous, and leaves the rows as they were when it had recorded the hash.
  pub ambiguous_stays :
      (first second third : String) (rest : List SubmitReply)
      → w.submit_replies ≡ refused first ∷ refused second ∷ refused third ∷ rest
      → is_retryable first ≡ true
      → is_retryable second ≡ true
      → is_retryable third ≡ true
      → eng.context_done 1 ≡ false
      → eng.context_done 2 ≡ false
      → (next_detail w.detail_replies ≡ not_found) ⊎ (next_detail w.detail_replies ≡ unavailable)
      → ((settle eng tx src dst e w).0 ≡ err submission_ambiguous)
        × ((settle eng tx src dst e w).1.sent ≡ e ∷ e ∷ e ∷ w.sent)
        × ((settle eng tx src dst e w).1.rows ≡ recorded.rows)
  unfolding transaction_detail submit_with_retry
  ambiguous_stays first second third rest h r1 r2 r3 c1 c2 k =
      let (o, sent, details) = three_refusals first second third rest h r1 r2 r3 c1 c2 in
      let same =
        settle_outcome (outcome_ambiguous third) o
        ∙ unresolved third attempted (
            subst (λ ds. (next_detail ds ≡ not_found) ⊎ (next_detail ds ≡ unavailable))
              (sym details) k) in
      (
        ap (λ p. p.0) same,
        ap (λ p. p.1.sent) same ∙ sent,
        ap (λ p. p.1.rows) same ∙ loop-rows eng.context_done e 3 0 "" recorded,
      )
