-- ===== src/Exec.antt =====
-- Calls that change the state and may return an error. Go returns `(T, error)` and keeps what was
-- written before the error, so the state comes back in both cases. The text that `fmt.Errorf` puts
-- round a `%w` error is left out: `errors.Is` looks through it.
pub mod Keeps
use flowx.Prelude.{String, Bool, Option, none, some, if◌then◌else◌}

-- The sentinels of internal/domain/errors.go that the modelled code returns, and, for errors
-- with no sentinel, the call that they come from.
pub data Error : Type 0 where
  wallet_not_found transaction_not_found invalid_asset self_transfer : Error
  invalid_destination_address fee_schedule_not_found batch_not_found batch_too_large : Error
  batch_empty schedule_not_found transfer_limit_reached concurrent_update : Error
  transfer_blocked_sanctions compliance_review_not_found review_not_pending : Error
  insufficient_sweepable_balance treasury_config_not_found : Error
  webhook_not_found webhook_delivery_not_found webhook_limit_reached : Error
  unsupported_pair invalid_quote_amount quote_expired quote_already_used : Error
  quote_ownership_mismatch : Error
  no_trustline : String → Error
  -- the database or the queue reports a failure
  call_failed : Error
  -- `ErrSanctionsSetNotLoaded` of internal/compliance/sanctions.go
  sanctions_set_not_loaded : Error
  -- `ErrUnsafeWebhookURL` of internal/webhook/ssrf.go
  unsafe_webhook_url : Error
  -- errors made by `fmt.Errorf` with no sentinel, by what they report
  unsupported_payout missing_fee_wallet missing_key missing_destination : Error
  submission_rejected submission_ambiguous chain_error context_done : Error
  not_configured unsupported_asset : Error

pub data Result {ℓ} (A : Type ℓ) : Type ℓ where
  ok : A → Result A
  err : Error → Result A

abbrev pub Exec {ℓ} : Type ℓ → Type ℓ → Type ℓ
Exec S A = S → Result A × S

module _ {ℓ} {S A : Type ℓ} where
  abbrev pub pure : A → Exec S A
  pure a s = (ok a, s)

  abbrev pub raise : Error → Exec S A
  raise e s = (err e, s)

  abbrev pub lift : Result A → Exec S A
  lift r s = (r, s)

  abbrev pub gets : (S → A) → Exec S A
  gets f s = (ok (f s), s)

  abbrev pub or_raise : Option A → Error → Exec S A
  or_raise none e s = (err e, s)
  or_raise (some a) e s = (ok a, s)

  -- `if err := m(); err != nil { log }`: the error is logged and dropped.
  abbrev pub logged : Exec S A → Exec S (Unit {ℓ})
  logged m s = let (_, s') = m s in (ok tt, s')

  -- A call whose error is looked at.
  abbrev pub outcome_of : Exec S A → Exec S (Result A)
  outcome_of m s = let (r, s') = m s in (ok r, s')

  -- `if err := m(); err != nil { handler }`
  abbrev pub catch : Exec S A → (Error → Exec S A) → Exec S A
  catch m h s = let (r, s') = m s in elim r [ ok a ↦ (ok a, s') | err e ↦ h e s' ]

abbrev pub modify {ℓ} : {S : Type ℓ} → (S → S) → Exec S (Unit {ℓ})
modify f s = (ok tt, f s)

module _ {ℓ} {S A B : Type ℓ} where
  -- What follows a call, by how the call ended.
  abbrev pub continue : Result A × S → (A → Exec S B) → Result B × S
  continue (ok a, s) f = f a s
  continue (err e, s) f = (err e, s)

  infixl 5 ◌>>=◌ ◌>>◌
  abbrev pub ◌>>=◌ : Exec S A → (A → Exec S B) → Exec S B
  ◌>>=◌ m f s = continue (m s) f

  abbrev pub ◌>>◌ : Exec S A → Exec S B → Exec S B
  m >> n = m >>= λ _. n
