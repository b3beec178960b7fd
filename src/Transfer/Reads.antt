-- ===== src/Transfer/Reads.antt =====
-- The calls of internal/transfer that leave the rows and the queue as they are.
use flowx.Prelude.{
  ℕ, ◌≡◌, ◌∙◌, String, Bool, true, false, Option, none, some, List, arith, string_eq,
}
use flowx.Decimal.{Decimal}
use flowx.Exec.{call_failed, Result, ok, err}
use flowx.Exec.Keeps.{continue-holds}
use flowx.Domain.{Transaction, FeeSchedule, ScreeningRequest, ScreeningDecision}
use flowx.Domain.Status.{clear}
use flowx.World.{next_fault, rest_faults, TxRow, World, Action, attempt}
use flowx.Fees.{calculate_fee}
use flowx.Compliance.Repo.{create_review, create_block}
use flowx.Compliance.Screener.{Screener}
use flowx.Compliance.Service.{Context, record_block, record_hold}
use flowx.Transfer.Trustline.{AccountReply, check_cached, after_account, validate_trustline}

-- What the transfers are: the rows and the queue.
abbrev pub footprint : {D : Type 0} → World D → List (TxRow D) × List String
footprint w = (w.rows, w.queue)

-- A call that reads leaves the rows and the queue as they are.
abbrev pub Reads : {D A B : Type 0} → (A → Action D B) → Type 0
Reads {D} {A} m = (x : A) (w : World D) → footprint (m x w).1 ≡ footprint w

-- The same of a call that there may be none of.
abbrev pub OptionReads : {D A B : Type 0} → Option (A → Action D B) → Type 0
OptionReads none = Unit
OptionReads (some m) = Reads m

abbrev pub map_screen :
    {D : Type 0} → Option (Screener D) → Option (ScreeningRequest D → Action D ScreeningDecision)
map_screen none = none
map_screen (some s) = some s.screen

-- The screener, where there is one, has returned `clear` for a request with a property.
abbrev pub Cleared : {D : Type 0} → (ScreeningRequest D → Type 0) → Option (Screener D) → Type 0
Cleared P none = Unit
Cleared {D} P (some s) =
    (q : ScreeningRequest D) × P q
    × ((w : World D) × ((x : ScreeningDecision) × (((s.screen q w).0 ≡ ok x) × (x.status ≡ clear))))

module _ {D : Type 0} where
  -- A call of the outside fails and does nothing, or is made.
  pub attempt-holds :
      {A : Type 0} (P : Result A × World D → Type 0) (m : Action D A) (w : World D)
      → P (err call_failed, record w { faults = rest_faults w.faults })
      → P (m (record w { faults = rest_faults w.faults }))
      → P (attempt m w)
  attempt-holds P m w h k =
      let w' : World D = record w { faults = rest_faults w.faults } in
      elim (next_fault w.faults)
        as (λ b. P (elim b [ true ↦ (err call_failed, w') | false ↦ m w' ])) [
          | true ↦ h
          | false ↦ k
        ]

  pub cached-Reads :
      (get : String → Action D (List String))
      → Reads get
      → (id asset : String) (w : World D) → footprint (check_cached get id asset w).1 ≡ footprint w
  unfolding check_cached
  cached-Reads get reads id asset w = grind (arith, reads)

  pub after_account-Reads :
      (get : String → Action D (List String))
      → Reads get
      → (id asset : String) (r : AccountReply) (w : World D)
      → footprint (after_account get id asset r w).1 ≡ footprint w
  unfolding after_account
  after_account-Reads get reads id asset r w = grind (arith, cached-Reads get reads)

  pub validate-footprint :
      (load : Option (String → Action D AccountReply)) (get : String → Action D (List String))
      → OptionReads load
      → Reads get
      → (id key asset : String) (w : World D)
      → footprint (validate_trustline load get id key asset w).1 ≡ footprint w
  unfolding validate_trustline
  validate-footprint none get loads reads id key asset w = cached-Reads get reads id asset w
  validate-footprint (some load) get loads reads id key asset w =
      continue-holds (λ p. footprint p.1 ≡ footprint w) (load key w) (after_account get id asset)
        (λ e. loads key w)
        (λ r. after_account-Reads get reads id asset r (load key w).1 ∙ loads key w)

module _ {D : Type 0} ⦃d : Decimal D⦄ where
  pub record_block-footprint :
      (uuid : ℕ → String) (ctx : Context) (q : ScreeningRequest D) (dec : ScreeningDecision)
      (w : World D)
      → footprint (record_block uuid ctx q dec w).1 ≡ footprint w
  unfolding record_block create_block
  record_block-footprint uuid ctx q dec w = ground arith

  pub record_hold-footprint :
      (uuid : ℕ → String) (ctx : Context) (t : Transaction D) (dec : ScreeningDecision)
      (w : World D)
      → footprint (record_hold uuid ctx t dec w).1 ≡ footprint w
  unfolding record_hold create_review
  record_hold-footprint uuid ctx t dec w = ground arith

  pub fee-Reads :
      (get : Option String → String → Action D (FeeSchedule D))
      → ((o : Option String) → Reads (get o))
      → (tenant asset : String) (a : D) (b : Bool) (w : World D)
      → footprint (calculate_fee get tenant asset a b w).1 ≡ footprint w
  unfolding calculate_fee
  fee-Reads get reads tenant asset a b w = grind (arith, reads)
