-- ===== src/Fees/Split.antt =====
-- A fee and the net amount split the gross amount, within bounds, whatever the schedule's rate and
-- however the rate's product is rounded.
use flowx.Prelude.{◌≡◌, refl, Bool, Option, none, some, Bool-cases, inl, inr, if◌then◌else◌}
use flowx.Decimal.{Decimal}
use flowx.Decimal.Laws.{IsDecimal, Le, sub_nonneg}
use flowx.Domain.{FeeSchedule}
use flowx.Fees.{at_least, at_most, fee_by_schedule, calculate}

module _ {D : Type 0} ⦃d : Decimal D⦄ (l : IsDecimal d) where
  at_least-le : (low fee : D) → Le low (at_least low fee)
  at_least-le low fee = elim (Bool-cases (d.leq low fee)) [
    | inl e ↦ rw e e
    | inr e ↦ rw e (l.leq_refl low)
  ]

  at_most-le : (high fee : D) → Le (at_most (some high) fee) high
  at_most-le high fee = elim (Bool-cases (d.leq fee high)) [
    | inl e ↦ rw e e
    | inr e ↦ rw e (l.leq_refl high)
  ]

  -- What lies below the fee and below the bound lies below the clamped fee.
  at_most-ge : (low high fee : D) → Le low high → Le low fee → Le low (at_most (some high) fee)
  at_most-ge low high fee h k = elim (Bool-cases (d.leq fee high)) [
    | inl e ↦ rw e k
    | inr e ↦ rw e h
  ]

  -- A schedule whose bounds are not negative.
  abbrev pub HasBounds : FeeSchedule D → Type 0
  HasBounds s = Le d.zero s.min_fee_amount × ((m : D) → s.max_fee_amount ≡ some m → Le d.zero m)

  capped_nonneg :
      (max_fee : Option D) (fee : D)
      → ((m : D) → max_fee ≡ some m → Le d.zero m)
      → Le d.zero fee
      → Le d.zero (at_most max_fee fee)
  capped_nonneg none fee h k = k
  capped_nonneg (some m) fee h k = at_most-ge d.zero m fee (h m refl) k

  le_at_most : (high fee : D) → Le (at_most (some high) fee) fee
  le_at_most high fee = elim (l.leq_total fee high) [
    | inl e ↦ rw e (l.leq_refl fee)
    | inr k ↦ elim (Bool-cases (d.leq fee high)) [ inl e ↦ rw e (l.leq_refl fee) | inr e ↦ rw e k ]
  ]

  -- Where there is a maximum, the fee is at most that.
  abbrev pub Capped : Option D → D → Type 0
  Capped none fee = Unit
  Capped (some m) fee = Le fee m

  capped_lem :
      (max_fee : Option D) (amount fee : D)
      → Capped max_fee (at_most (some amount) (at_most max_fee fee))
  capped_lem none amount fee = tt
  capped_lem (some m) amount fee =
      l.leq_trans _ _ _ (le_at_most amount (at_most (some m) fee)) (at_most-le m fee)

  -- With an amount and bounds that are not negative, the fee and the net amount add up to the
  -- amount, neither of the two is negative, and the fee is at most the amount and the schedule's
  -- maximum.
  pub fee_split :
      (s : FeeSchedule D) (amount : D) (is_transfer : Bool)
      → HasBounds s
      → Le d.zero amount
      → let f = fee_by_schedule s amount is_transfer in
        (d.add f.net_amount f.fee_amount ≡ amount)
        × Le d.zero f.fee_amount
        × Le f.fee_amount amount
        × Le d.zero f.net_amount
        × Capped s.max_fee_amount f.fee_amount
  unfolding fee_by_schedule
  fee_split s amount is_transfer h k =
      let bounded = (λ (fee : D). at_most s.max_fee_amount (at_least s.min_fee_amount fee)) in
      let raw =
        (calculate amount (if is_transfer then s.transfer_fee_bps else s.conversion_fee_bps)).0 in
      let nonneg =
        capped_nonneg s.max_fee_amount (at_least s.min_fee_amount raw) h.1
          (l.leq_trans _ _ _ h.0 (at_least-le s.min_fee_amount raw)) in
      let below = at_most-le amount (bounded raw) in
      (
        l.sub-add amount _,
        at_most-ge d.zero amount (bounded raw) k nonneg,
        below,
        sub_nonneg l amount _ below,
        capped_lem s.max_fee_amount amount (at_least s.min_fee_amount raw),
      )
