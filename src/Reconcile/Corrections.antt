-- ===== src/Reconcile/Corrections.antt =====
-- The events of the pass over transactions in flight.
use flowx.Prelude.{
  ◌≡◌, refl, String, Bool, true, false, Option, none, some, List, [], ◌∷◌, ◌++◌, if◌then◌else◌,
  arith, ltb, ◌+◌, ◌==◌, string_eq,
}
use flowx.Decimal.{Decimal}
use flowx.Exec.{concurrent_update, Result, ok, err, pure}
use flowx.Exec.Keeps.{if-holds}
use flowx.Domain.{Transaction, EventType, transfer_settled, transfer_failed}
use flowx.World.{World, DetailReply, successful, unsuccessful, not_found, unavailable}
use flowx.TxRepo.{exec_update, must_affect, update_tx_confirmed, update_tx_failed}
use flowx.Submission.{transaction_detail, next_detail}
use flowx.Reconcile.Pending.{stuck_threshold, correct, act_on, look_up, check_pending_transaction}

-- The event that Horizon's answer about the hash asks for.
abbrev pub event_of : DetailReply → Option EventType
event_of successful = some transfer_settled
event_of unsuccessful = some transfer_failed
event_of not_found = none
event_of unavailable = none

-- The events with one more for the transaction, where there is a webhook service.
abbrev pub notified : {D : Type 0} → String → World D → Option EventType → List (EventType × String)
notified id w none = w.events
notified id w (some event) = if w.has_webhooks then w.events ++ (event, id) ∷ [] else w.events

-- The events after a check: with a correction, the one that the answer asks for.
abbrev pub Corrected :
    {D : Type 0} → DetailReply → String → World D → Result (Bool × Bool) × World D → Type 0
Corrected reply id w (ok (found, true), s) =
    (s.events ≡ notified id w (event_of reply))
    × ((event : EventType) × (event_of reply ≡ some event))
Corrected reply id w (ok (found, false), s) = s.events ≡ w.events
Corrected reply id w (err e, s) = s.events ≡ w.events

module _ {D : Type 0} ⦃d : Decimal D⦄ where
  confirmed-events :
      (id h : String) (w : World D) → (update_tx_confirmed id h w).1.events ≡ w.events
  unfolding update_tx_confirmed exec_update must_affect
  confirmed-events id h w = ground arith

  failed-events : (id : String) (w : World D) → (update_tx_failed id w).1.events ≡ w.events
  unfolding update_tx_failed exec_update must_affect
  failed-events id w = ground arith

  confirmed-webhooks :
      (id h : String) (w : World D) → (update_tx_confirmed id h w).1.has_webhooks ≡ w.has_webhooks
  unfolding update_tx_confirmed exec_update must_affect
  confirmed-webhooks id h w = ground arith

  failed-webhooks :
      (id : String) (w : World D) → (update_tx_failed id w).1.has_webhooks ≡ w.has_webhooks
  unfolding update_tx_failed exec_update must_affect
  failed-webhooks id w = ground arith

  correct-Corrected :
      (reply : DetailReply) (event : EventType) (id : String) (w : World D)
      (p : Result (Unit {0}) × World D)
      → event_of reply ≡ some event
      → p.1.events ≡ w.events
      → p.1.has_webhooks ≡ w.has_webhooks
      → Corrected reply id w (correct event id (λ s. p) w)
  correct-Corrected reply event id w (ok x, s) e h k = (ground (arith, e, h, k), (event, e))
  correct-Corrected reply event id w (err e, s) _ h k =
      elim e as (λ e. Corrected reply id w (correct event id (λ s'. (err e, s)) w)) [
        | concurrent_update ↦ h
        | other ↦ h
      ]

  act_on-Corrected :
      (tx : Transaction D) (stuck : Bool) (r : DetailReply) (w : World D)
      → Corrected r tx.id w (act_on tx stuck r w)
  act_on-Corrected tx stuck successful w =
      correct-Corrected successful transfer_settled tx.id w (update_tx_confirmed tx.id tx.tx_hash w)
        refl (confirmed-events tx.id tx.tx_hash w) (confirmed-webhooks tx.id tx.tx_hash w)
  act_on-Corrected tx stuck unsuccessful w =
      correct-Corrected unsuccessful transfer_failed tx.id w (update_tx_failed tx.id w) refl
        (failed-events tx.id w) (failed-webhooks tx.id w)
  act_on-Corrected tx stuck not_found w = refl
  act_on-Corrected tx stuck unavailable w = refl

  look_up-Corrected :
      (tx : Transaction D) (stuck : Bool) (w : World D)
      → Corrected (next_detail w.detail_replies) tx.id w (look_up tx stuck w)
  unfolding transaction_detail
  look_up-Corrected tx stuck w =
      act_on-Corrected tx stuck (next_detail w.detail_replies) (transaction_detail tx.tx_hash w).1

  -- The check of a transaction in flight reports a correction only where Horizon has the
  -- transaction, and then, where there is a webhook service, sends one event, that it is settled
  -- where it was successful and that it failed where it was not; without a correction or with an
  -- error it sends none.
  pub check_corrects :
      (tx : Transaction D) (w : World D)
      → Corrected (next_detail w.detail_replies) tx.id w (check_pending_transaction tx w)
  unfolding check_pending_transaction
  check_corrects tx w =
      let stuck = ltb (tx.created_at + stuck_threshold) w.now in
      if-holds (Corrected (next_detail w.detail_replies) tx.id w) (tx.tx_hash == "")
        (pure (stuck, false)) (look_up tx stuck) w refl (look_up-Corrected tx stuck w)
