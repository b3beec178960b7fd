-- ===== src/Decimal.antt =====
-- The interface to github.com/shopspring/decimal, which the program uses for every amount and which
-- is not part of the repository: its operations are a parameter, and what the proofs rely on is
-- the record of laws `IsDecimal`. `Decimal/Scaled.antt` has an instance.
pub mod Laws
pub mod Scaled
use flowx.Prelude.{Bool, true, false, Option, String, not, ◌&&◌}
use flowx.Prelude.Int.{ℤ}

pub record Decimal (D : Type 0) : Type 0 where
  pub zero : D
  pub add : D → D → D
  pub sub : D → D → D
  pub mul : D → D → D
  -- `Div`, at the library's default precision
  pub div : D → D → D
  pub floor : D → D
  -- `Round(7)`
  pub round7 : D → D
  -- `LessThanOrEqual`
  pub leq : D → D → Bool
  -- `NewFromInt`
  pub from_int : ℤ → D
  -- `NewFromString`; `none` is its error
  pub parse : String → Option D
  -- `StringFixed(7)`
  pub string_fixed7 : D → String

-- The other comparisons, by `LessThanOrEqual`.
abbrev pub lt : {D : Type 0} ⦃d : Decimal D⦄ → D → D → Bool
lt ⦃d⦄ a b = not (d.leq b a)

abbrev pub gt : {D : Type 0} ⦃d : Decimal D⦄ → D → D → Bool
gt ⦃d⦄ a b = not (d.leq a b)

abbrev pub equal : {D : Type 0} ⦃d : Decimal D⦄ → D → D → Bool
equal ⦃d⦄ a b = d.leq a b && d.leq b a
