-- ===== src/Webhook/Safe.antt =====
-- The addresses that deliveries reach.
use flowx.Prelude.{
  ℕ, zero, suc, ◌+◌, ◌≡◌, ◌∙◌, refl, String, Bool, true, false, Option, none, some, List, [], ◌∷◌,
  All, arith,
}
use flowx.Exec.{Result, ok, err, continue, catch, pure, raise, logged, ◌>>◌}
use flowx.Exec.Keeps.{if-holds, continue-holds, catch-holds}
use flowx.Webhook.{
  WebhookEndpoint, WebhookDelivery, Hooks, Hooking, Ip, Request, failed, no_reply, next_of, rest_of,
}
use flowx.Webhook.Address.{
  is_blocked_ip, validated, resolve_and_validate_host, validate_webhook_url,
}
use flowx.Webhook.Repo.{update_delivery, get_by_id, get_delivery_by_id}
use flowx.Webhook.Service.{Client}
use flowx.Webhook.Deliver.{
  unless, sign, post, send, back_off, check_destination, build_request, attempt_once, attempt_loop,
  load_delivery, deliver,
}

-- Every request has gone to an address that is not blocked.
abbrev pub AllReachable : Hooks → Type 0
AllReachable s = All (λ (q : Request). is_blocked_ip q.address ≡ false) s.requests

-- A call that sends nothing.
abbrev pub Silent : {A : Type 0} → Hooking A → Type 0
Silent m = (s : Hooks) → (m s).1.requests ≡ s.requests

validated-reachable :
    (o : Option (List Ip)) (ip : Ip) → validated o ≡ ok ip → is_blocked_ip ip ≡ false
unfolding validated
validated-reachable none ip h = cc
validated-reachable (some []) ip h = cc
validated-reachable (some (x ∷ xs)) ip h = ground arith

module _ (c : Client) where
  dial-AllReachable :
      (signature : String) (r : Result Ip) (s s' : Hooks)
      → ((ip : Ip) → r ≡ ok ip → is_blocked_ip ip ≡ false)
      → AllReachable s'
      → AllReachable (catch (λ _. continue (r, s') (post c signature)) (λ _. pure no_reply) s).1
  unfolding post
  dial-AllReachable signature (ok ip) s s' k h = (k ip refl, h)
  dial-AllReachable signature (err e) s s' k h = h

  send-AllReachable :
      (signature : String) (s : Hooks) → AllReachable s → AllReachable (send c signature s).1
  unfolding send resolve_and_validate_host
  send-AllReachable signature s h =
      let o = next_of none s.lookups in
      dial-AllReachable signature (validated o) s (record s { lookups = rest_of s.lookups })
        (validated-reachable o) h

  pub back_off-Silent : (k : ℕ) → Silent (back_off c k)
  unfolding back_off
  back_off-Silent zero s = refl
  back_off-Silent (suc k) s = ground arith

  update_delivery-Silent : (dv : WebhookDelivery) → Silent (update_delivery dv)
  unfolding update_delivery
  update_delivery-Silent dv s = ground arith

  validate-Silent : (url : String) → Silent (validate_webhook_url c.parse_url url)
  unfolding validate_webhook_url resolve_and_validate_host
  validate-Silent url s = ground arith

  pub check_destination-Silent :
      (dv : WebhookDelivery) (url : String) → Silent (check_destination c dv url)
  unfolding check_destination
  check_destination-Silent dv url s =
      catch-holds (λ p. p.1.requests ≡ s.requests) (validate_webhook_url c.parse_url url)
        (λ e. logged (update_delivery (record dv { status = failed })) >> raise e) s
        (λ _. validate-Silent url s)
        (λ e.
          let s' = (validate_webhook_url c.parse_url url s).1 in
          update_delivery-Silent (record dv { status = failed }) s' ∙ validate-Silent url s)

  pub build_request-Silent : (dv : WebhookDelivery) (url : String) → Silent (build_request c dv url)
  unfolding build_request
  build_request-Silent dv url s =
      if-holds (λ p. p.1.requests ≡ s.requests) (c.builds_request url) _ _ s refl
        (update_delivery-Silent (record dv { status = failed }) s)

  load_delivery-Silent : (tenant id : String) → Silent (load_delivery c tenant id)
  unfolding load_delivery get_delivery_by_id get_by_id
  load_delivery-Silent tenant id s = ground arith

  Silent-AllReachable :
      {A : Type 0} (m : Hooking A) (s : Hooks) → Silent m → AllReachable s → AllReachable (m s).1
  Silent-AllReachable m s k h = rw k h

  attempt_once-AllReachable :
      (k : ℕ) (dv : WebhookDelivery) (ep : WebhookEndpoint) (s : Hooks)
      → AllReachable s
      → AllReachable (attempt_once c k dv ep s).1
  unfolding attempt_once
  attempt_once-AllReachable k dv ep s h =
      let s1 = (back_off c k s).1 in
      let h1 = Silent-AllReachable (back_off c k) s (back_off-Silent k) h in
      let tried : WebhookDelivery = record dv {
        attempt_count = dv.attempt_count + 1;
        last_attempt = some s1.now;
      } in
      let s2 = (check_destination c tried ep.url s1).1 in
      let h2 =
        Silent-AllReachable (check_destination c tried ep.url) s1
          (check_destination-Silent tried ep.url) h1 in
      let s3 = (build_request c tried ep.url s2).1 in
      let h3 =
        Silent-AllReachable (build_request c tried ep.url) s2 (build_request-Silent tried ep.url)
          h2 in
      continue-holds (λ p. AllReachable p.1) (back_off c k s) _ (λ e. h1)
        (λ _.
          continue-holds (λ p. AllReachable p.1) (check_destination c tried ep.url s1) _ (λ e. h2)
            (λ _.
              continue-holds (λ p. AllReachable p.1) (build_request c tried ep.url s2) _ (λ e. h3)
                (λ _.
                  let sig = sign c ep.secret (c.format_int s1.now) tried.payload in
                  let h4 = send-AllReachable sig s3 h3 in
                  continue-holds (λ p. AllReachable p.1) (send c sig s3) _ (λ e. h4)
                    (λ reply. h4))))

  unless-AllReachable :
      (stop : Bool) (dv : WebhookDelivery) (m : Hooking WebhookDelivery) (s : Hooks)
      → AllReachable s
      → AllReachable (m s).1
      → AllReachable (unless stop dv m s).1
  unless-AllReachable true dv m s h k = h
  unless-AllReachable false dv m s h k = k

  attempt_loop-AllReachable :
      (left k : ℕ) (dv : WebhookDelivery) (ep : WebhookEndpoint) (s : Hooks)
      → AllReachable s
      → AllReachable (attempt_loop c left k dv ep s).1
  unfolding attempt_loop
  attempt_loop-AllReachable zero k dv ep s h = h
  attempt_loop-AllReachable (suc left) k dv ep s h =
      let once = attempt_once-AllReachable k dv ep s h in
      let s' = (attempt_once c k dv ep s).1 in
      continue-holds (λ p. AllReachable p.1) (attempt_once c k dv ep s) _ (λ e. once)
        (λ (dv', stop).
          unless-AllReachable stop dv' (attempt_loop c left (k + 1) dv' ep) s' once
            (attempt_loop-AllReachable left (k + 1) dv' ep s' once))

  -- Where every request so far has gone to an address that is not blocked, so has every request
  -- after a delivery, however it ends and whatever the resolver answers from one call to the next.
  pub deliver-AllReachable :
      (tenant id : String) (s : Hooks) → AllReachable s → AllReachable (deliver c tenant id s).1
  unfolding deliver
  deliver-AllReachable tenant id s h =
      let h1 =
        Silent-AllReachable (load_delivery c tenant id) s (load_delivery-Silent tenant id) h in
      let s1 = (load_delivery c tenant id s).1 in
      continue-holds (λ p. AllReachable p.1) (load_delivery c tenant id s) _ (λ e. h1)
        (λ (dv, ep).
          let h2 = attempt_loop-AllReachable 5 0 dv ep s1 h1 in
          continue-holds (λ p. AllReachable p.1) (attempt_loop c 5 0 dv ep s1) _ (λ e. h2)
            (λ dv'.
              Silent-AllReachable (update_delivery dv') (attempt_loop c 5 0 dv ep s1).1
                (update_delivery-Silent dv') h2))
