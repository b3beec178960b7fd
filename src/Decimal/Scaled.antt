-- ===== src/Decimal/Scaled.antt =====
-- An instance of the decimal interface, for the witnesses: amounts in steps of 10^-7, the precision
-- of the database's NUMERIC(20, 7) columns. Products and quotients are rounded towards zero.
use flowx.Prelude.{ℕ, ◌+◌, ◌*◌, ◌/◌, ◌-◌, ◌≡◌, true, ◌⊎◌, none, arith}
use flowx.Prelude.Int.{ℤ, pos, negsuc, ◌+ℤ◌, ◌-ℤ◌, ◌*ℤ◌, leb_ℤ, int_laws}
use flowx.Decimal.{Decimal}
use flowx.Decimal.Laws.{IsDecimal}

abbrev scale : ℕ
scale = 10_000_000

negate : ℕ → ℤ
unfolding ◌-ℤ◌
negate n = pos 0 -ℤ pos n

unfoldable pub quotient : ℤ → ℕ → ℤ
unfolding negate
quotient (pos n) k = pos (n / k)
quotient (negsuc n) k = negate ((n + 1) / k)

unfoldable pub ratio : ℤ → ℤ → ℤ
unfolding quotient negate ◌*ℤ◌
ratio a (pos k) = quotient (a *ℤ pos scale) k
ratio a (negsuc k) = quotient (a *ℤ negsuc (scale - 1)) (k + 1)

unfoldable pub whole : ℤ → ℤ
whole (pos n) = pos (n / scale * scale)
whole (negsuc n) = negsuc (n / scale * scale + (scale - 1))

instance abbrev pub scaled : Decimal ℤ
scaled = record {
  zero = pos 0;
  add = ◌+ℤ◌;
  sub = ◌-ℤ◌;
  mul = λ a b. quotient (a *ℤ b) scale;
  div = ratio;
  floor = whole;
  round7 = λ a. a;
  leq = leb_ℤ;
  from_int = λ a. a *ℤ pos scale;
  parse = λ _. none;
  string_fixed7 = λ _. "";
}

add_comm : (a b : ℤ) → a +ℤ b ≡ b +ℤ a
add_comm a b = omega int_laws

add_assoc : (a b c : ℤ) → a +ℤ b +ℤ c ≡ a +ℤ (b +ℤ c)
add_assoc a b c = omega int_laws

add-zero : (a : ℤ) → a +ℤ pos 0 ≡ a
add-zero a = omega int_laws

sub-add : (a b : ℤ) → a -ℤ b +ℤ b ≡ a
sub-add a b = omega int_laws

leq_trans : (a b c : ℤ) → leb_ℤ a b ≡ true → leb_ℤ b c ≡ true → leb_ℤ a c ≡ true
leq_trans a b c h k = ground arith

leq_antisymm : (a b : ℤ) → leb_ℤ a b ≡ true → leb_ℤ b a ≡ true → a ≡ b
leq_antisymm a b h k = ground arith

leq_total : (a b : ℤ) → (leb_ℤ a b ≡ true) ⊎ (leb_ℤ b a ≡ true)
leq_total a b = ground arith

leq-add : (a b c : ℤ) → leb_ℤ a b ≡ true → leb_ℤ (a +ℤ c) (b +ℤ c) ≡ true
unfolding ◌+ℤ◌
leq-add a b c h = ground arith

pub scaled-IsDecimal : IsDecimal scaled
scaled-IsDecimal = record {
  add_comm = add_comm;
  add_assoc = add_assoc;
  add-zero = add-zero;
  sub-add = sub-add;
  leq_refl = λ a. ground arith;
  leq_trans = leq_trans;
  leq_antisymm = leq_antisymm;
  leq_total = leq_total;
  leq-add = leq-add;
}
