-- ===== src/Decimal/Laws.antt =====
-- What the proofs rely on of shopspring/decimal: exact sums, a total order that sums keep.
use mathlib.Core.Path.{subst}
use flowx.Prelude.{true, false, ◌≡◌, sym, ap, ◌∙◌, ◌⊎◌, inl, inr}
use flowx.Decimal.{Decimal}

abbrev pub Le : {D : Type 0} ⦃d : Decimal D⦄ → D → D → Type 0
Le ⦃d⦄ a b = d.leq a b ≡ true

pub record IsDecimal {D : Type 0} (d : Decimal D) : Type 0 where
  pub add_comm : (a b : D) → d.add a b ≡ d.add b a
  pub add_assoc : (a b c : D) → d.add (d.add a b) c ≡ d.add a (d.add b c)
  pub add-zero : (a : D) → d.add a d.zero ≡ a
  pub sub-add : (a b : D) → d.add (d.sub a b) b ≡ a
  pub leq_refl : (a : D) → d.leq a a ≡ true
  pub leq_trans : (a b c : D) → d.leq a b ≡ true → d.leq b c ≡ true → d.leq a c ≡ true
  pub leq_antisymm : (a b : D) → d.leq a b ≡ true → d.leq b a ≡ true → a ≡ b
  pub leq_total : (a b : D) → (d.leq a b ≡ true) ⊎ (d.leq b a ≡ true)
  pub leq-add : (a b c : D) → d.leq a b ≡ true → d.leq (d.add a c) (d.add b c) ≡ true

module _ {D : Type 0} ⦃d : Decimal D⦄ (l : IsDecimal d) where
  pub zero-add : (a : D) → d.add d.zero a ≡ a
  zero-add a = l.add_comm d.zero a ∙ l.add-zero a

  -- a - b = c exactly when a = c + b
  pub sub_of_add : (a b c : D) → d.add c b ≡ a → d.sub a b ≡ c
  sub_of_add a b c e = right_cancel (d.sub a b) c b (l.sub-add a b ∙ sym e)
    where
      minus : (x b : D) → d.add (d.add x b) (d.sub d.zero b) ≡ x
      minus x b =
          l.add_assoc x b (d.sub d.zero b)
          ∙ ap (d.add x) (l.add_comm b (d.sub d.zero b) ∙ l.sub-add d.zero b)
          ∙ l.add-zero x

      right_cancel : (x y b : D) → d.add x b ≡ d.add y b → x ≡ y
      right_cancel x y b p = sym (minus x b) ∙ ap (λ t. d.add t (d.sub d.zero b)) p ∙ minus y b

  pub sub_self : (a : D) → d.sub a a ≡ d.zero
  sub_self a = sub_of_add a a d.zero (zero-add a)

  pub sub-zero : (a : D) → d.sub a d.zero ≡ a
  sub-zero a = sub_of_add a d.zero a (l.add-zero a)

  -- A test that fails orders its arguments the other way round.
  pub leq_flip : (a b : D) → d.leq a b ≡ false → Le b a
  leq_flip a b h = elim (l.leq_total a b) [ inl p ↦ cc | inr q ↦ q ]

  pub sub-eq-add : (a b : D) → d.add a (d.sub d.zero b) ≡ d.sub a b
  sub-eq-add a b = sym (
      sub_of_add a b (d.add a (d.sub d.zero b))
        (l.add_assoc a (d.sub d.zero b) b ∙ ap (d.add a) (l.sub-add d.zero b) ∙ l.add-zero a))

  -- A difference is not negative when its terms are in order.
  pub sub_nonneg : (a b : D) → Le b a → Le d.zero (d.sub a b)
  sub_nonneg a b h =
      rw (← sub_self b, ← sub-eq-add b b, ← sub-eq-add a b) (l.leq-add b a (d.sub d.zero b) h)

  -- What is at most the rest leaves the rest of what it is taken from.
  pub leq-sub_sub : (a b r u : D) → Le a (d.sub (d.sub b r) u) → Le (d.add r u) (d.sub b a)
  leq-sub_sub a b r u h =
      let x = d.sub (d.sub b r) u in
      let whole : d.add x (d.add r u) ≡ b =
        ap (d.add x) (l.add_comm r u)
        ∙ sym (l.add_assoc x u r)
        ∙ ap (λ t. d.add t r) (l.sub-add (d.sub b r) u)
        ∙ l.sub-add b r in
      let below : Le (d.add a (d.add r u)) b = rw (← whole) (l.leq-add a x (d.add r u) h) in
      let rest : d.sub (d.add a (d.add r u)) a ≡ d.add r u =
        sub_of_add (d.add a (d.add r u)) a (d.add r u) (l.add_comm (d.add r u) a) in
      subst (λ t. Le t (d.sub b a)) rest
        (rw (← sub-eq-add (d.add a (d.add r u)) a, ← sub-eq-add b a)
          (l.leq-add (d.add a (d.add r u)) b (d.sub d.zero a) below))
