-- ===== src/Webhook/Service.antt =====
-- internal/webhook/service.go: endpoints are registered, listed and deleted, and an event makes a
-- delivery for every endpoint that listens to it.
use flowx.Prelude.{
  ℕ, String, Bool, true, false, ◌||◌, Option, none, some, List, [], ◌∷◌, ◌++◌, ◌==◌, string_eq,
  nullable, if◌then◌else◌,
}
use flowx.Prelude.Int.{ℤ, pos, leb_ℤ, ltb_ℤ, pos_part}
use flowx.Exec.{ok, webhook_limit_reached, pure, raise, gets, logged, catch, ◌>>=◌, ◌>>◌}
use flowx.Domain.{EventType, Tenant, get_webhook_limit}
use flowx.Webhook.{WebhookEndpoint, WebhookDelivery, Hooking, pending, attempt, draw}
use flowx.Webhook.Address.{validate_webhook_url}
use flowx.Webhook.Repo.{
  create, list, delete, list_active_by_event, create_delivery, list_deliveries, count_by_tenant,
}

-- What the service is built from, and what it calls of Go's library: the parser of URLs, the
-- generators, the keyed hash in hexadecimal, and the decimal text of a time.
pub record Client : Type 0 where
  pub find_tenant : Option (String → Hooking Tenant)
  pub webhooks_table : Option (String → ℕ)
  pub has_queue : Bool
  pub parse_url : String → Option (String × String)
  -- whether `http.NewRequestWithContext` builds a request for the URL
  pub builds_request : String → Bool
  pub uuid : ℕ → String
  pub generate_secret : Hooking String
  pub hmac : String → String → String
  pub format_int : ℕ → String
  pub context_done : ℕ → Bool

-- `queue.EnqueueWebhookDelivery`
abbrev pub enqueue_webhook_delivery : String → Hooking (Unit {0})
enqueue_webhook_delivery id = attempt (λ s. (ok tt, record s { queue = s.queue ++ id ∷ [] }))

-- the limit of a page
unfoldable pub page_size : ℤ → ℕ
page_size limit = if leb_ℤ limit (pos 0) || ltb_ℤ (pos 100) limit then 20 else pos_part limit

module _ (c : Client) (tenant : String) where
  -- `if err == nil && count >= limit`
  unfoldable pub check_count : ℤ → Hooking (Unit {0})
  unfolding count_by_tenant
  check_count limit = do
    full ←
        catch (do n ← count_by_tenant c.webhooks_table tenant; pure (leb_ℤ limit (pos n)))
          (λ _. pure false)
    if full then raise webhook_limit_reached else pure tt

  -- the limit of the tenant; a tenant that cannot be read has none, nor has one with a limit of 0
  unfoldable pub check_limit : Hooking (Unit {0})
  unfolding check_count
  check_limit = elim c.find_tenant [
    | none ↦ pure tt
    | some find ↦ if tenant == "" then pure tt else (do
      limit ← catch (do t ← find tenant; pure (get_webhook_limit t)) (λ _. pure (pos 0))
      if ltb_ℤ (pos 0) limit then check_count limit else pure tt)
  ]

  -- `Register`
  unfoldable pub register : String → List EventType → Hooking WebhookEndpoint
  register url events = do
    validate_webhook_url c.parse_url url
    check_limit
    secret ← c.generate_secret
    id ← draw c.uuid
    now ← gets (λ s. s.now)
    let ep : WebhookEndpoint = record {
      id = id;
      tenant_id = nullable tenant;
      url = url;
      secret = secret;
      events = events;
      active = true;
      created_at = now;
    }
    create ep
    pure ep

  -- `List`, `Delete`, `ListDeliveries`
  unfoldable pub list_endpoints : Hooking (List WebhookEndpoint)
  list_endpoints = list (nullable tenant)

  unfoldable pub delete_endpoint : String → Hooking (Unit {0})
  delete_endpoint id = delete id (nullable tenant)

  unfoldable pub page_of_deliveries : String → ℤ → ℕ → Hooking (List WebhookDelivery)
  page_of_deliveries endpoint limit offset =
      list_deliveries endpoint (page_size limit) offset (nullable tenant)

  -- one turn of the loop of `Dispatch`; a failure of the queue is dropped
  unfoldable pub dispatch_to : EventType → String → WebhookEndpoint → Hooking (Unit {0})
  unfolding create_delivery
  dispatch_to event body ep = do
    id ← draw c.uuid
    now ← gets (λ s. s.now)
    create_delivery (record {
      id = id;
      endpoint_id = ep.id;
      event_type = event;
      payload = body;
      status = pending;
      response_code = none;
      attempt_count = 0;
      last_attempt = none;
      created_at = now;
    })
    if c.has_queue then logged (enqueue_webhook_delivery id) else pure tt

  unfoldable pub dispatch_all : EventType → String → List WebhookEndpoint → Hooking (Unit {0})
  dispatch_all event body [] = pure tt
  dispatch_all event body (ep ∷ eps) = do dispatch_to event body ep; dispatch_all event body eps

  -- `Dispatch`, of the payload's JSON text
  unfoldable pub dispatch : EventType → String → Hooking (Unit {0})
  dispatch event body = do endpoints ← list_active_by_event event; dispatch_all event body endpoints
