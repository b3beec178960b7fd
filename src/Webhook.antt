-- ===== src/Webhook.antt =====
-- internal/webhook and internal/postgres/webhook_repo.go: the endpoints that tenants register, the
-- deliveries that an event makes for them, and the requests that are sent. The clients outside
-- answer from scripts in the state.
pub mod Address
pub mod Repo
pub mod Safe
pub mod Service
pub mod Deliver
pub mod Attempts
use flowx.Prelude.{ℕ, suc, String, Bool, true, false, Option, none, List, [], ◌∷◌, if◌then◌else◌}
use flowx.Exec.{Exec, ok, err, call_failed}
use flowx.Domain.{EventType}

pub data DeliveryStatus : Type 0 where
  pending success failed : DeliveryStatus

-- domain.WebhookEndpoint
pub record WebhookEndpoint : Type 0 where
  pub id : String
  pub tenant_id : Option String
  pub url : String
  pub secret : String
  pub events : List EventType
  pub active : Bool
  pub created_at : ℕ

-- domain.WebhookDelivery; the payload is the text of the body
pub record WebhookDelivery : Type 0 where
  pub id : String
  pub endpoint_id : String
  pub event_type : EventType
  pub payload : String
  pub status : DeliveryStatus
  pub response_code : Option ℕ
  pub attempt_count : ℕ
  pub last_attempt : Option ℕ
  pub created_at : ℕ

-- net.IP: the four bytes of IPv4 (also where they are mapped into IPv6), or the first two bytes of
-- IPv6 and the number that the other fourteen make.
pub data Ip : Type 0 where
  v4 : ℕ → ℕ → ℕ → ℕ → Ip
  v6 : ℕ → ℕ → ℕ → Ip

-- What an HTTP request ends in: a status code, or a network error.
pub data Reply : Type 0 where
  code : ℕ → Reply
  no_reply : Reply

-- A request that was sent: the address that was connected to, the signature's text and what came.
pub record Request : Type 0 where
  pub address : Ip
  pub signature : String
  pub reply : Reply

pub record Hooks : Type 0 where
  pub endpoints : List WebhookEndpoint
  pub deliveries : List WebhookDelivery
  -- the ids in the delivery tasks
  pub queue : List String
  -- what was sent, latest first
  pub requests : List Request
  -- what the resolver answers, call by call; past the end it fails
  pub lookups : List (Option (List Ip))
  -- what the servers answer; past the end they do not
  pub replies : List Reply
  -- the outcome of each call of the database or the queue; `true` is a failure
  pub faults : List Bool
  pub drawn : ℕ
  pub now : ℕ

abbrev pub Hooking : Type 0 → Type 0
Hooking A = Exec Hooks A

abbrev pub next_of {ℓ} : {A : Type ℓ} → A → List A → A
next_of a [] = a
next_of a (x ∷ xs) = x

abbrev pub rest_of {ℓ} : {A : Type ℓ} → List A → List A
rest_of [] = []
rest_of (x ∷ xs) = xs

-- A call of the database or the queue that succeeds, or fails and does nothing.
abbrev pub attempt : {A : Type 0} → Hooking A → Hooking A
attempt m s =
    let s' : Hooks = record s { faults = rest_of s.faults } in
    if next_of false s.faults then (err call_failed, s') else m s'

-- `uuid.New().String()`
abbrev pub draw : (ℕ → String) → Hooking String
draw uuid s = (ok (uuid s.drawn), record s { drawn = suc s.drawn })
