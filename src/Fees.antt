-- ===== src/Fees.antt =====
-- internal/fees: calculate.go and the fee calculation of service.go. Amounts go through the decimal
-- interface; the schedule comes from the repository, which is an argument.
pub mod Split
use flowx.Prelude.{
  String, Bool, true, false, Option, none, some, ◌||◌, ◌==◌, nullable, if◌then◌else◌,
}
use flowx.Prelude.Int.{ℤ, pos, leb_ℤ}
use flowx.Decimal.{Decimal, lt, gt}
use flowx.Exec.{Exec, Result, ok, err, pure, ◌>>=◌}
use flowx.Domain.{FeeSchedule}

-- fees/repository.go
pub record TransferFee (D : Type 0) : Type 0 where
  pub fee_amount : D
  pub net_amount : D
  pub fee_bps : ℤ

module _ {D : Type 0} ⦃d : Decimal D⦄ where
  -- `Calculate`: the fee and the net amount
  unfoldable pub calculate : D → ℤ → D × D
  calculate amount fee_bps =
      if leb_ℤ fee_bps (pos 0) || d.leq amount d.zero
      then (d.zero, amount)
      else (let fee =
            d.round7 (d.div (d.mul amount (d.from_int fee_bps)) (d.from_int (pos 10000))) in
          (fee, d.sub amount fee))

  -- The three clamps of `ApplyBounds`, one after the other.
  abbrev at_least : D → D → D
  at_least low fee = if lt fee low then low else fee

  abbrev at_most : Option D → D → D
  at_most none fee = fee
  at_most (some high) fee = if gt fee high then high else fee

  -- `ApplyBounds`
  unfoldable pub apply_bounds : D → D → D → Option D → D × D
  apply_bounds amount fee min_fee max_fee =
      let bounded = at_most (some amount) (at_most max_fee (at_least min_fee fee)) in
      (bounded, d.sub amount bounded)

  -- The part of `calculateFee` after the schedule is read.
  unfoldable pub fee_by_schedule : FeeSchedule D → D → Bool → TransferFee D
  unfolding calculate apply_bounds
  fee_by_schedule schedule amount is_transfer =
      let bps = if is_transfer then schedule.transfer_fee_bps else schedule.conversion_fee_bps in
      let (fee, _) = calculate amount bps in
      let (bounded, net) =
        apply_bounds amount fee schedule.min_fee_amount schedule.max_fee_amount in
      record { fee_amount = bounded; net_amount = net; fee_bps = bps }

  -- `calculateFee`
  unfoldable pub calculate_fee :
      {S : Type 0}
      → (Option String → String → Exec S (FeeSchedule D))
      → String
      → String
      → D
      → Bool
      → Exec S (TransferFee D)
  unfolding fee_by_schedule
  calculate_fee get_schedule tenant asset amount is_transfer = do
    schedule ← get_schedule (nullable tenant) asset
    pure (fee_by_schedule schedule amount is_transfer)
