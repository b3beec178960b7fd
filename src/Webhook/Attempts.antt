-- ===== src/Webhook/Attempts.antt =====
-- How the attempts of a delivery end.
use flowx.Prelude.{
  ℕ, zero, suc, ◌+◌, ◌≤◌, ◌≡◌, ◌≢◌, ◌∙◌, ◌↔◌, ◌⊎◌, refl, ap, inl, inr, String, Bool, true, false,
  not, ◌&&◌, ◌||◌, none, some, List, [], ◌∷◌, ◌++◌, All, length, ltb, leb, eqb, arith,
}
use flowx.Exec.{Result, ok, err, continue, catch, pure}
use flowx.Exec.Keeps.{continue-holds, either-cases}
use flowx.Webhook.{
  WebhookEndpoint, WebhookDelivery, DeliveryStatus, success, failed, Hooks, Hooking, Ip, Reply,
  code, no_reply, Request, next_of, rest_of,
}
use flowx.Webhook.Address.{validated, resolve_and_validate_host}
use flowx.Webhook.Service.{Client}
use flowx.Webhook.Deliver.{
  unless, react, sign, post, send, back_off, check_destination, build_request, attempt_once,
  attempt_loop,
}
use flowx.Webhook.Safe.{back_off-Silent, check_destination-Silent, build_request-Silent}

-- A status of 2xx, and what is tried again: no reply, a status from 500 on, or 429.
abbrev pub is_delivered : Request → Bool
is_delivered q = elim q.reply [ code n ↦ leb 200 n && ltb n 300 | no_reply ↦ false ]

abbrev pub is_tried_again : Request → Bool
is_tried_again q = elim q.reply [ code n ↦ leb 500 n || eqb n 429 | no_reply ↦ true ]

abbrev pub last_delivered : List Request → Bool
last_delivered [] = false
last_delivered (q ∷ qs) = is_delivered q

-- All requests but the last one are of the kind that is tried again.
abbrev pub OthersRetryable : List Request → Type 0
OthersRetryable [] = Unit
OthersRetryable (q ∷ qs) = All (λ q. is_tried_again q ≡ true) qs

-- What one attempt ends in.
abbrev Attempted : WebhookDelivery → Hooks → Result (WebhookDelivery × Bool) × Hooks → Type 0
Attempted dv s (ok (dv', true), s') =
    (q : Request) × (s'.requests ≡ q ∷ s.requests)
    × ((dv'.status ≡ success) ↔ (is_delivered q ≡ true))
    × (dv'.attempt_count ≡ dv.attempt_count + 1)
Attempted dv s (ok (dv', false), s') =
    ((s'.requests ≡ s.requests)
      ⊎ ((q : Request) × (s'.requests ≡ q ∷ s.requests) × (is_tried_again q ≡ true)))
    × (dv'.status ≡ failed)
    × (dv'.attempt_count ≡ dv.attempt_count + 1)
Attempted dv s (err e, s') = s'.requests ≡ s.requests

-- How the loop ends, with at most `n` attempts in all, after the requests in `base`.
abbrev pub Settled : ℕ → WebhookDelivery → List Request → Result WebhookDelivery × Hooks → Type 0
Settled n dv base (ok dv', s') =
    (log : List Request) × (s'.requests ≡ log ++ base)
    × (length log ≤ n)
    × OthersRetryable log
    × ((dv'.status ≡ success) ↔ (last_delivered log ≡ true))
    × (dv'.attempt_count ≤ dv.attempt_count + n)
Settled n dv base (err e, s') =
    (log : List Request) × (s'.requests ≡ log ++ base)
    × (length log ≤ n)
    × All (λ q. is_tried_again q ≡ true) log

module _ (c : Client) where
  react-Attempted :
      (dv tried : WebhookDelivery) (signature : String) (ip : Ip) (reply : Reply) (s s' : Hooks)
      → tried.attempt_count ≡ dv.attempt_count + 1
      → s'.requests ≡ record { address = ip; signature = signature; reply = reply } ∷ s.requests
      → Attempted dv s (ok (react tried reply), s')
  unfolding react
  react-Attempted dv tried signature ip no_reply s s' e h =
      (inr (record { address = ip; signature = signature; reply = no_reply }, h, refl), refl, e)
  react-Attempted dv tried signature ip (code n) s s' e h =
      let q : Request = record { address = ip; signature = signature; reply = code n } in
      either-cases (λ x. Attempted dv s (ok x, s')) (leb 200 n && ltb n 300) _ _
        (λ t. (q, h, (λ _. t, λ _. refl), e))
        (λ u.
          either-cases (λ x. Attempted dv s (ok x, s')) (ltb n 500 && not (eqb n 429)) _ _
            (λ t. (q, h, (λ p. absurd (cc p), λ p. absurd (cc (p, u))), e))
            (λ t. (inr (q, h, ground arith), refl, e)))

  -- An attempt from the connection on.
  dial-Attempted :
      (dv tried : WebhookDelivery) (signature : String) (r : Result Ip) (s s' s0 : Hooks)
      → tried.attempt_count ≡ dv.attempt_count + 1
      → s'.requests ≡ s.requests
      → Attempted dv s (
          continue
            (catch (λ _. continue (r, s') (post c signature)) (λ _. pure no_reply) s0)
            (λ reply. pure (react tried reply)))
  unfolding post react
  dial-Attempted dv tried signature (err e) s s' s0 k h = (inl h, refl, k)
  dial-Attempted dv tried signature (ok ip) s s' s0 k h =
      let reply = next_of no_reply s'.replies in
      let q : Request = record { address = ip; signature = signature; reply = reply } in
      react-Attempted dv tried signature ip reply s
        (record s' { requests = q ∷ s'.requests; replies = rest_of s'.replies }) k
        (ap (λ qs. q ∷ qs) h)

  attempt_once-Attempted :
      (k : ℕ) (dv : WebhookDelivery) (ep : WebhookEndpoint) (s : Hooks)
      → Attempted dv s (attempt_once c k dv ep s)
  unfolding attempt_once send resolve_and_validate_host
  attempt_once-Attempted k dv ep s =
      let s1 = (back_off c k s).1 in
      let e1 = back_off-Silent c k s in
      let tried : WebhookDelivery = record dv {
        attempt_count = dv.attempt_count + 1;
        last_attempt = some s1.now;
      } in
      let s2 = (check_destination c tried ep.url s1).1 in
      let e2 = check_destination-Silent c tried ep.url s1 ∙ e1 in
      let s3 = (build_request c tried ep.url s2).1 in
      let e3 = build_request-Silent c tried ep.url s2 ∙ e2 in
      continue-holds (Attempted dv s) (back_off c k s) _ (λ e. e1)
        (λ _.
          continue-holds (Attempted dv s) (check_destination c tried ep.url s1) _ (λ e. e2)
            (λ _.
              continue-holds (Attempted dv s) (build_request c tried ep.url s2) _ (λ e. e3)
                (λ _.
                  dial-Attempted dv tried (sign c ep.secret (c.format_int s1.now) tried.payload)
                    (validated (next_of none s3.lookups)) s
                    (record s3 { lookups = rest_of s3.lookups }) s3 refl e3)))

  -- what the loop has behind it
  abbrev Behind : ℕ → WebhookDelivery → WebhookDelivery → List Request → Hooks → Type 0
  Behind n dv0 dv base s =
      (log : List Request) × (s.requests ≡ log ++ base)
      × (length log ≤ n)
      × All (λ q. is_tried_again q ≡ true) log
      × (dv.attempt_count ≡ dv0.attempt_count + n)

  others : (log : List Request) → All (λ q. is_tried_again q ≡ true) log → OthersRetryable log
  others [] h = tt
  others (q ∷ qs) h = h.1

  none_delivered :
      (log : List Request) → All (λ q. is_tried_again q ≡ true) log → last_delivered log ≡ false
  none_delivered [] h = refl
  none_delivered (q ∷ qs) h = retried q.reply h.0
    where
      retried :
          (r : Reply)
          → is_tried_again (record q { reply = r }) ≡ true
          → is_delivered (record q { reply = r }) ≡ false
      retried no_reply h = refl
      retried (code n) h = ground arith

  not_success : (t : DeliveryStatus) → t ≡ failed → t ≢ success
  not_success t e h = cc

  -- What follows an attempt, given what the further turns do.
  after-Settled :
      (m n : ℕ) (dv0 dv : WebhookDelivery) (base : List Request) (s : Hooks)
      (more : WebhookDelivery → Hooking WebhookDelivery)
      (p : Result (WebhookDelivery × Bool) × Hooks)
      → suc n ≤ m
      → Behind n dv0 dv base s
      → ((dv' : WebhookDelivery) (s' : Hooks)
          → Behind (suc n) dv0 dv' base s'
          → dv'.status ≡ failed
          → Settled m dv0 base (more dv' s'))
      → Attempted dv s p
      → Settled m dv0 base (continue p (λ (dv', stop). unless stop dv' (more dv')))
  after-Settled m n dv0 dv base s more (err x, s') le (log, e, l, all, _) rec a =
      (log, a ∙ e, omega arith, all)
  after-Settled m n dv0 dv base s more (ok (dv', true), s') le (log, e, l, all, t) rec
        (q, e', iff, u) =
      (q ∷ log, e' ∙ ap (λ qs. q ∷ qs) e, omega arith, all, iff, omega arith)
  after-Settled m n dv0 dv base s more (ok (dv', false), s') le (log, e, l, all, t) rec
        (inl e', st, u) =
      rec dv' s' (log, e' ∙ e, omega arith, all, omega arith) st
  after-Settled m n dv0 dv base s more (ok (dv', false), s') le (log, e, l, all, t) rec
        (inr (q, e', r), st, u) =
      rec dv' s' (q ∷ log, e' ∙ ap (λ qs. q ∷ qs) e, omega arith, (r, all), omega arith) st

  loop-Settled :
      (left m n k : ℕ) (dv0 dv : WebhookDelivery) (ep : WebhookEndpoint) (base : List Request)
      (s : Hooks)
      → n + left ≡ m
      → Behind n dv0 dv base s
      → (left ≡ 0 → dv.status ≡ failed)
      → Settled m dv0 base (attempt_loop c left k dv ep s)
  unfolding attempt_loop
  loop-Settled zero m n k dv0 dv ep base s e (log, f, l, all, t) st = (
    log,
    f,
    omega arith,
    others log all,
    (λ h. absurd (not_success dv.status (st refl) h), λ h. absurd (cc (none_delivered log all))),
    omega arith,
  )
  loop-Settled (suc left) m n k dv0 dv ep base s e b st =
      after-Settled m n dv0 dv base s (λ dv'. attempt_loop c left (k + 1) dv' ep)
        (attempt_once c k dv ep s) (omega arith) b
        (λ dv' s' b' st'.
          loop-Settled left m (suc n) (k + 1) dv0 dv' ep base s' (omega arith) b' (λ _. st'))
        (attempt_once-Attempted k dv ep s)

  -- The loop of `Deliver` sends at most five requests, all but the last of which had no reply or one
  -- that is tried again. Where it ends with a delivery, that has the status "success" exactly if the
  -- last request was answered with 2xx, and counts at most five attempts more; where it ends with an
  -- error, no request had another kind of reply.
  pub attempt_loop-Settled :
      (dv : WebhookDelivery) (ep : WebhookEndpoint) (s : Hooks)
      → Settled 5 dv s.requests (attempt_loop c 5 0 dv ep s)
  attempt_loop-Settled dv ep s =
      loop-Settled 5 5 0 0 dv dv ep s.requests s refl ([], refl, omega arith, tt, omega arith)
        (λ h. absurd (omega arith))
