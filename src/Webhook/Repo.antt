-- ===== src/Webhook/Repo.antt =====
-- internal/postgres/webhook_repo.go, without the order of the rows.
use flowx.Prelude.{
  ℕ, ◌-◌, String, Bool, true, false, not, ◌&&◌, ◌||◌, Option, none, some, List, [], ◌∷◌, ◌++◌, ltb,
  ◌==◌, string_eq, has, count, if◌then◌else◌,
}
use flowx.Exec.{
  ok, err, call_failed, webhook_not_found, webhook_delivery_not_found, pure, raise, gets, or_raise,
  ◌>>=◌,
}
use flowx.Domain.{EventType, event_beq}
use flowx.Table.{update_where, select_where, query_row}
use flowx.Webhook.{WebhookEndpoint, WebhookDelivery, Hooking, attempt}

-- tenant_id = $1, where there is a tenant
abbrev pub of_tenant : Option String → WebhookEndpoint → Bool
of_tenant none ep = true
of_tenant (some tenant) ep = has ep.tenant_id tenant

-- `Create`
unfoldable pub create : WebhookEndpoint → Hooking (Unit {0})
create ep = attempt (λ s.
    if ltb 0 (count (λ r. r.id == ep.id) s.endpoints)
    then (err call_failed, s)
    else (ok tt, record s { endpoints = s.endpoints ++ ep ∷ [] }))

-- `GetByID`
unfoldable pub get_by_id : String → Hooking WebhookEndpoint
unfolding query_row
get_by_id id =
    attempt
      (do row ← gets (λ s. query_row (λ r. r.id == id) s.endpoints); or_raise row webhook_not_found)

-- `List`
unfoldable pub list : Option String → Hooking (List WebhookEndpoint)
unfolding select_where
list tenant = attempt (gets (λ s. select_where (of_tenant tenant) s.endpoints))

-- `Delete`; the deliveries of the endpoint go with it (ON DELETE CASCADE)
unfoldable pub delete : String → Option String → Hooking (Unit {0})
unfolding select_where
delete id tenant = attempt (λ s.
    let doomed : WebhookEndpoint → Bool = λ r. (r.id == id) && of_tenant tenant r in
    if ltb 0 (count doomed s.endpoints)
    then (
      ok tt,
      record s {
        endpoints = select_where (λ r. not (doomed r)) s.endpoints;
        deliveries = select_where (λ r. not (r.endpoint_id == id)) s.deliveries;
      },
    )
    else (err webhook_not_found, s))

abbrev pub among : EventType → List EventType → Bool
among e [] = false
among e (x ∷ xs) = event_beq x e || among e xs

abbrev pub no_events : List EventType → Bool
no_events [] = true
no_events (x ∷ xs) = false

-- active, and subscribed to the event: to all events, where it names none
abbrev pub listens : EventType → WebhookEndpoint → Bool
listens e ep = ep.active && (no_events ep.events || among e ep.events)

-- `ListActiveByEvent`
unfoldable pub list_active_by_event : EventType → Hooking (List WebhookEndpoint)
unfolding select_where
list_active_by_event e = attempt (gets (λ s. select_where (listens e) s.endpoints))

-- `CreateDelivery`
unfoldable pub create_delivery : WebhookDelivery → Hooking (Unit {0})
create_delivery d = attempt (λ s.
    if ltb 0 (count (λ r. r.id == d.id) s.deliveries)
    then (err call_failed, s)
    else (ok tt, record s { deliveries = s.deliveries ++ d ∷ [] }))

-- the SET of `UpdateDelivery`
abbrev pub set_delivery : WebhookDelivery → WebhookDelivery → WebhookDelivery
set_delivery d r = record r {
  status = d.status;
  response_code = d.response_code;
  attempt_count = d.attempt_count;
  last_attempt = d.last_attempt;
}

-- `UpdateDelivery`
unfoldable pub update_delivery : WebhookDelivery → Hooking (Unit {0})
unfolding update_where
update_delivery d = attempt (λ s. (
  ok tt,
  record s { deliveries = update_where (λ r. r.id == d.id) (set_delivery d) s.deliveries },
))

-- the JOIN with the endpoint and its tenant
abbrev pub owned : Option String → List WebhookEndpoint → WebhookDelivery → Bool
owned none eps d = true
owned (some tenant) eps d =
    ltb 0 (count (λ ep. (ep.id == d.endpoint_id) && has ep.tenant_id tenant) eps)

-- `GetDeliveryByID`
unfoldable pub get_delivery_by_id : String → Option String → Hooking WebhookDelivery
unfolding query_row
get_delivery_by_id id tenant = attempt (do
  row ← gets (λ s. query_row (λ d. (d.id == id) && owned tenant s.endpoints d) s.deliveries)
  or_raise row webhook_delivery_not_found)

abbrev drop {ℓ} : {A : Type ℓ} → ℕ → List A → List A
drop n [] = []
drop n (x ∷ xs) = let rest = drop (n - 1) xs in if ltb 0 n then rest else x ∷ xs

abbrev take {ℓ} : {A : Type ℓ} → ℕ → List A → List A
take n [] = []
take n (x ∷ xs) = let rest = take (n - 1) xs in if ltb 0 n then x ∷ rest else []

-- `ListDeliveries`
unfoldable pub list_deliveries : String → ℕ → ℕ → Option String → Hooking (List WebhookDelivery)
unfolding select_where
list_deliveries endpoint limit offset tenant = attempt (
    gets (λ s. take limit (
      drop offset (
        select_where (λ d. (d.endpoint_id == endpoint) && owned tenant s.endpoints d)
          s.deliveries))))

-- `CountByTenant`: the statement names the table `webhooks`, which no migration creates.
-- `has_table` says whether there is one all the same, and what it counts.
unfoldable pub count_by_tenant : Option (String → ℕ) → String → Hooking ℕ
count_by_tenant none tenant = raise call_failed
count_by_tenant (some n) tenant = attempt (pure (n tenant))
