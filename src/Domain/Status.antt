-- ===== src/Domain/Status.antt =====
-- The status types of internal/domain, with their equality tests.
use flowx.Prelude.{ℕ, Bool, true, false, ◌≡◌, ◌↔◌, arith, Equality}

pub data TransactionStatus : Type 0 where
  pending submitted confirmed failed reconciliation_failed compliance_hold : TransactionStatus

pub data TransactionType : Type 0 where
  transfer conversion funding : TransactionType

pub data ScreeningStatus : Type 0 where
  clear hold blocked : ScreeningStatus

-- `ScreeningStatus.Severity`
unfoldable pub severity : ScreeningStatus → ℕ
severity blocked = 2
severity hold = 1
severity clear = 0

pub data ReviewStatus : Type 0 where
  pending approved rejected : ReviewStatus

pub data BatchStatus : Type 0 where
  pending processing partial completed failed compliance_hold : BatchStatus

abbrev pub tx_status_beq : TransactionStatus → TransactionStatus → Bool
tx_status_beq TransactionStatus.pending TransactionStatus.pending = true
tx_status_beq submitted submitted = true
tx_status_beq confirmed confirmed = true
tx_status_beq TransactionStatus.failed TransactionStatus.failed = true
tx_status_beq reconciliation_failed reconciliation_failed = true
tx_status_beq TransactionStatus.compliance_hold TransactionStatus.compliance_hold = true
tx_status_beq _ _ = false

pub tx_status_beq_iff : (a b : TransactionStatus) → (tx_status_beq a b ≡ true) ↔ (a ≡ b)
tx_status_beq_iff a b = ground arith

instance abbrev pub tx_status_eq : Equality TransactionStatus
tx_status_eq = record { same = tx_status_beq; same_iff = tx_status_beq_iff }

abbrev pub review_status_beq : ReviewStatus → ReviewStatus → Bool
review_status_beq ReviewStatus.pending ReviewStatus.pending = true
review_status_beq approved approved = true
review_status_beq rejected rejected = true
review_status_beq _ _ = false

pub review_status_beq_iff : (a b : ReviewStatus) → (review_status_beq a b ≡ true) ↔ (a ≡ b)
review_status_beq_iff a b = ground arith

instance abbrev pub review_status_eq : Equality ReviewStatus
review_status_eq = record { same = review_status_beq; same_iff = review_status_beq_iff }

abbrev pub tx_type_beq : TransactionType → TransactionType → Bool
tx_type_beq transfer transfer = true
tx_type_beq conversion conversion = true
tx_type_beq funding funding = true
tx_type_beq _ _ = false

pub tx_type_beq_iff : (a b : TransactionType) → (tx_type_beq a b ≡ true) ↔ (a ≡ b)
tx_type_beq_iff a b = ground arith

instance abbrev pub tx_type_eq : Equality TransactionType
tx_type_eq = record { same = tx_type_beq; same_iff = tx_type_beq_iff }
