-- ===== src/Examples/Delivering.antt =====
-- The theorems on webhooks.
use flowx.Prelude.{true, false, some, none, [], ◌∷◌, string_eq}
use flowx.Domain.{transfer_settled}
use flowx.Exec.{pure}
use flowx.Webhook.{WebhookEndpoint, WebhookDelivery, DeliveryStatus, Hooks, v4, code}
use flowx.Webhook.Service.{Client}
use flowx.Webhook.Deliver.{attempt_loop, deliver}
use flowx.Webhook.Safe.{AllReachable, deliver-AllReachable}
use flowx.Webhook.Attempts.{Settled, attempt_loop-Settled}

abbrev client : Client
client = record {
  find_tenant = none;
  webhooks_table = none;
  has_queue = true;
  parse_url = λ url. some ("https", url);
  builds_request = λ url. true;
  uuid = λ n. "id";
  generate_secret = pure "secret";
  hmac = λ key text. "mac";
  format_int = λ n. "0";
  context_done = λ n. false;
}

abbrev endpoint : WebhookEndpoint
endpoint = record {
  id = "e1";
  tenant_id = some "acme";
  url = "example.org";
  secret = "secret";
  events = [];
  active = true;
  created_at = 5;
}

abbrev delivery : WebhookDelivery
delivery = record {
  id = "d1";
  endpoint_id = "e1";
  event_type = transfer_settled;
  payload = "{}";
  status = DeliveryStatus.pending;
  response_code = none;
  attempt_count = 0;
  last_attempt = none;
  created_at = 5;
}

-- The name resolves to a private address when the second request is made.
abbrev rebound : Hooks
rebound = record {
  endpoints = endpoint ∷ [];
  deliveries = delivery ∷ [];
  queue = [];
  requests = [];
  lookups =
      some (v4 93 184 216 34 ∷ [])
      ∷ some (v4 93 184 216 34 ∷ [])
      ∷ some (v4 93 184 216 34 ∷ [])
      ∷ some (v4 10 0 0 1 ∷ [])
      ∷ some (v4 93 184 216 34 ∷ [])
      ∷ some (v4 93 184 216 34 ∷ [])
      ∷ [];
  replies = code 503 ∷ code 204 ∷ [];
  faults = [];
  drawn = 0;
  now = 1000;
}

deliver_example : AllReachable (deliver client "acme" "d1" rebound).1
deliver_example = deliver-AllReachable client "acme" "d1" rebound tt

attempt_loop_example : Settled 5 delivery [] (attempt_loop client 5 0 delivery endpoint rebound)
attempt_loop_example = attempt_loop-Settled client delivery endpoint rebound
