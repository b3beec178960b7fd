-- ===== src/Domain.antt =====
-- internal/domain: the data that the services exchange. Times are seconds since the epoch.
pub mod Status
pub mod Recurring
use flowx.Prelude.{ℕ, String, Bool, true, false, Option, none, some, List, if◌then◌else◌}
use flowx.Prelude.Int.{ℤ, pos, negsuc}
use flowx.Decimal.{Decimal}
use Status.{TransactionStatus, TransactionType, ScreeningStatus, ReviewStatus}

-- domain/transaction.go. An empty text stands for "none" in the plain fields, as in the source.
pub record Transaction (D : Type 0) : Type 0 where
  pub id : String
  pub tx_hash : String
  pub tx_type : TransactionType
  pub status : TransactionStatus
  pub from_wallet : String
  pub to_wallet : String
  pub to_address : String
  pub asset : String
  pub amount : D
  pub fee : D
  pub fee_bps : ℤ
  pub tenant_id : Option String
  pub batch_id : Option String
  pub reference : String
  pub created_at : ℕ
  pub reconciled_at : Option ℕ
  pub requeue_count : ℕ
  pub idempotency_key : String

-- `NetAmount`
unfoldable pub net_amount : {D : Type 0} ⦃d : Decimal D⦄ → Transaction D → D
net_amount ⦃d⦄ t = d.sub t.amount t.fee

-- domain/wallet.go
pub record Wallet : Type 0 where
  pub id : String
  pub public_key : String
  pub encrypted_secret : String
  pub tenant_id : Option String

-- domain/tenant.go
pub record Tenant : Type 0 where
  pub is_organization : Bool
  pub max_transfers_per_month : Option ℤ
  pub max_webhooks : Option ℤ

-- `GetTransferLimit`; -1 is "unlimited"
unfoldable pub get_transfer_limit : Tenant → ℤ
get_transfer_limit t = elim t.max_transfers_per_month [
  | some n ↦ n
  | none ↦ if t.is_organization then negsuc 0 else pos 1000
]

-- `GetWebhookLimit`
unfoldable pub get_webhook_limit : Tenant → ℤ
get_webhook_limit t = elim t.max_webhooks [
  | some n ↦ n
  | none ↦ if t.is_organization then pos 10 else pos 2
]

-- domain/compliance.go
pub record ScreeningRequest (D : Type 0) : Type 0 where
  pub org_id : String
  pub from_wallet_id : String
  pub to_wallet_id : String
  pub from_public_key : String
  pub to_public_key : String
  pub to_federation : String
  pub asset : String
  pub amount : D

pub record ScreeningDecision : Type 0 where
  pub status : ScreeningStatus
  pub rules_fired : List String
  pub reason : String
  pub risk_score : ℤ
  pub matched_entity : String
  pub block_id : String

pub record ComplianceReview : Type 0 where
  pub id : String
  pub transaction_id : String
  pub org_id : Option String
  pub status : ReviewStatus
  pub risk_score : ℤ
  pub rules_fired : List String
  pub reason : String
  pub reviewed_by : Option String
  pub review_notes : String
  pub reviewed_at : Option ℕ
  pub created_at : ℕ

pub record ComplianceBlock (D : Type 0) : Type 0 where
  pub id : String
  pub org_id : Option String
  pub from_wallet_id : Option String
  pub to_wallet_id : Option String
  pub to_address : String
  pub asset : String
  pub amount : Option D
  pub rules_fired : List String
  pub reason : String
  pub matched_entity : String
  pub created_at : ℕ

-- domain/fx.go, the fields that the service fills
pub record RateResponse (D : Type 0) : Type 0 where
  pub rate : D
  pub mid_market_rate : D
  pub spread_bps : ℤ
  pub provider : String
  pub cached_at : ℕ
  pub stale : Bool

-- domain/conversion.go
pub record Conversion (D : Type 0) : Type 0 where
  pub id : String
  pub wallet_id : String
  pub source_asset : String
  pub dest_asset : String
  pub source_amount : D
  pub dest_amount : D
  pub fee_amount : D
  pub fee_bps : ℤ
  pub rate : D
  pub tx_hash : String
  pub created_at : ℕ

-- domain/fee.go
pub record FeeSchedule (D : Type 0) : Type 0 where
  pub transfer_fee_bps : ℤ
  pub conversion_fee_bps : ℤ
  pub min_fee_amount : D
  pub max_fee_amount : Option D

pub record FeeCollection (D : Type 0) : Type 0 where
  pub transaction_id : String
  pub tenant_id : Option String
  pub fee_amount : D
  pub asset : String
  pub fee_bps : ℤ

-- domain/webhook.go
pub data EventType : Type 0 where
  transfer_initiated transfer_settled transfer_failed wallet_funded : EventType
  conversion_completed treasury_sweep_completed transfer_compliance_hold : EventType
  transfer_compliance_approved transfer_compliance_rejected sanctions_refresh_failed : EventType

abbrev pub event_beq : EventType → EventType → Bool
event_beq transfer_initiated transfer_initiated = true
event_beq transfer_settled transfer_settled = true
event_beq transfer_failed transfer_failed = true
event_beq wallet_funded wallet_funded = true
event_beq conversion_completed conversion_completed = true
event_beq treasury_sweep_completed treasury_sweep_completed = true
event_beq transfer_compliance_hold transfer_compliance_hold = true
event_beq transfer_compliance_approved transfer_compliance_approved = true
event_beq transfer_compliance_rejected transfer_compliance_rejected = true
event_beq sanctions_refresh_failed sanctions_refresh_failed = true
event_beq _ _ = false
