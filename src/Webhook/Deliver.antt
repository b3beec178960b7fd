-- ===== src/Webhook/Deliver.antt =====
-- `Deliver` of internal/webhook/service.go: up to five attempts, each after a check of the
-- destination. A request opens a connection; one that the client keeps open goes to an address that
-- it had connected to.
use flowx.Prelude.{
  ℕ, zero, suc, ◌+◌, ◌^◌, String, Bool, true, false, not, ◌&&◌, some, ◌∷◌, ltb, leb, eqb, nullable,
  concat, if◌then◌else◌,
}
use flowx.Exec.{
  ok, call_failed, context_done, pure, raise, gets, modify, logged, catch, ◌>>=◌, ◌>>◌,
}
use flowx.Webhook.{
  WebhookEndpoint, WebhookDelivery, Hooking, success, failed, Ip, Reply, code, no_reply, next_of,
  rest_of,
}
use flowx.Webhook.Address.{resolve_and_validate_host, validate_webhook_url}
use flowx.Webhook.Repo.{get_by_id, get_delivery_by_id, update_delivery}
use flowx.Webhook.Service.{Client}

-- what an attempt makes of the reply, and whether the loop ends with it
unfoldable pub react : WebhookDelivery → Reply → WebhookDelivery × Bool
react dv no_reply = (record dv { status = failed }, false)
react dv (code n) =
    if leb 200 n && ltb n 300
    then (record dv { response_code = some n; status = success }, true)
    else if ltb n 500 && not (eqb n 429)
    then (record dv { response_code = some n; status = failed }, true)
    else (record dv { response_code = some n; status = failed }, false)

-- `break` with a value, or another turn
abbrev pub unless : {A : Type 0} → Bool → A → Hooking A → Hooking A
unless true a m = pure a
unless false a m = m

module _ (c : Client) where
  -- `sign`
  unfoldable pub sign : String → String → String → String
  sign secret timestamp payload =
      concat "sha256=" (c.hmac secret (concat (concat timestamp ".") payload))

  -- `client.Do`: a connection to the address that the dialer has validated
  unfoldable pub post : String → Ip → Hooking Reply
  post signature ip s =
      let reply = next_of no_reply s.replies in
      (
        ok reply,
        record s {
          requests = record { address = ip; signature = signature; reply = reply } ∷ s.requests;
          replies = rest_of s.replies;
        },
      )

  unfoldable pub send : String → Hooking Reply
  unfolding post
  send signature = catch (do ip ← resolve_and_validate_host; post signature ip) (λ _. pure no_reply)

  -- the wait before another attempt
  unfoldable pub back_off : ℕ → Hooking (Unit {0})
  back_off zero = pure tt
  back_off (suc k) =
      if c.context_done (suc k)
      then raise context_done
      else modify (λ s. record s { now = s.now + 2 ^ k })

  -- the check of the destination: where it fails, the delivery is recorded as failed
  unfoldable pub check_destination : WebhookDelivery → String → Hooking (Unit {0})
  check_destination dv url =
      catch (validate_webhook_url c.parse_url url)
        (λ e. do logged (update_delivery (record dv { status = failed })); raise e)

  -- the request: where none can be built, the delivery is recorded as failed
  unfoldable pub build_request : WebhookDelivery → String → Hooking (Unit {0})
  build_request dv url =
      if c.builds_request url
      then pure tt
      else (do logged (update_delivery (record dv { status = failed })); raise call_failed)

  -- one turn of the loop
  unfoldable pub attempt_once :
      ℕ → WebhookDelivery → WebhookEndpoint → Hooking (WebhookDelivery × Bool)
  unfolding react sign
  attempt_once k dv ep = do
    back_off k
    now ← gets (λ s. s.now)
    let tried : WebhookDelivery = record dv {
      attempt_count = dv.attempt_count + 1;
      last_attempt = some now;
    }
    check_destination tried ep.url
    build_request tried ep.url
    reply ← send (sign ep.secret (c.format_int now) tried.payload)
    pure (react tried reply)

  -- the loop, with the attempts left and the number of the next
  unfoldable pub attempt_loop : ℕ → ℕ → WebhookDelivery → WebhookEndpoint → Hooking WebhookDelivery
  attempt_loop zero k dv ep = pure dv
  attempt_loop (suc left) k dv ep = do
    (dv', stop) ← attempt_once k dv ep
    unless stop dv' (attempt_loop left (k + 1) dv' ep)

  -- `loadDelivery`
  unfoldable pub load_delivery : String → String → Hooking (WebhookDelivery × WebhookEndpoint)
  load_delivery tenant id = do
    dv ← get_delivery_by_id id (nullable tenant)
    ep ← get_by_id dv.endpoint_id
    pure (dv, ep)

  -- `Deliver`
  unfoldable pub deliver : String → String → Hooking (Unit {0})
  deliver tenant id = do
    (dv, ep) ← load_delivery tenant id
    dv' ← attempt_loop 5 0 dv ep
    update_delivery dv'
