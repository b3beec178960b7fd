-- ===== src/Treasury/Found.antt =====
-- The balance that a sweep is computed from, and that its computation sends nothing.
use flowx.Prelude.{
  ◌≡◌, ◌∙◌, refl, ap, String, Option, none, some, List, [], ◌∷◌, ◌++◌, ◌==◌, string_eq,
  if◌then◌else◌,
}
use flowx.Decimal.{Decimal}
use flowx.Exec.{Result, ok, err, continue, pure, ◌>>=◌}
use flowx.Exec.Keeps.{if-holds, continue-holds, catch-holds}
use flowx.World.{World, Action}
use flowx.Settlement.{AccountBalance}
use flowx.Treasury.{Vault, Keeping, on_world}
use flowx.Treasury.Balances.{
  AssetBalance, Custody, code_of, find_balance, usd_at, usd_of, balance_line, collect_balances,
}

-- The call of the rates, where there is one, sends nothing to the network.
abbrev pub RateSilent : {D : Type 0} → Option (String → String → Action D D) → Type 0
RateSilent none = Unit
RateSilent {D} (some rate) = (a b : String) (w : World D) → (rate a b w).1.sent ≡ w.sent

abbrev pub line_amount : {D : Type 0} → String → String → Option D → Option D → Option D
line_amount asset code none rest = rest
line_amount asset code (some amount) rest = if code == asset then some amount else rest

-- The first balance of an asset among an account's lines, of those whose text is a number.
abbrev pub first_amount : {D : Type 0} ⦃d : Decimal D⦄ → String → List AccountBalance → Option D
first_amount asset [] = none
first_amount ⦃d⦄ asset (b ∷ bs) =
    line_amount asset (code_of b.code) (d.parse b.balance) (first_amount asset bs)

module _ {D : Type 0} where
  -- Nothing was sent, and the policies are as they were.
  abbrev pub Calm : Vault D → Vault D → Type 0
  Calm s s' = (s'.world.sent ≡ s.world.sent) × (s'.configs ≡ s.configs)

  abbrev pub Quiet : {A : Type 0} → Keeping D A → Type 0
  Quiet m = (s : Vault D) → Calm s (m s).1

  pub bind-Quiet :
      {A B : Type 0} (m : Keeping D A) (f : A → Keeping D B)
      → Quiet m
      → ((a : A) → Quiet (f a))
      → Quiet (m >>= f)
  bind-Quiet m f h k s =
      continue-holds (λ p. Calm s p.1) (m s) f (λ e. h s)
        (λ a. let n = k a (m s).1 in (n.0 ∙ (h s).0, n.1 ∙ (h s).1))

module _ {D : Type 0} ⦃d : Decimal D⦄ (sv : Custody D) where
  usd_at-Quiet :
      (code : String) (amount : D) (o : Option (String → String → Action D D))
      → RateSilent o
      → Quiet (usd_at sv code amount o)
  unfolding usd_at
  usd_at-Quiet code amount none h s = (refl, refl)
  usd_at-Quiet code amount (some rate) h s =
      catch-holds (λ p. Calm s p.1) (on_world (rate code "USDC") >>= λ r. pure (d.mul amount r))
        (λ _. pure d.zero) s (λ _. priced) (λ _. priced)
    where
      priced : Calm s ((on_world (rate code "USDC") >>= λ r. pure (d.mul amount r)) s).1
      priced =
          continue-holds (λ p. Calm s p.1) (on_world (rate code "USDC") s) _
            (λ e. (h code "USDC" s.world, refl)) (λ r. (h code "USDC" s.world, refl))

  usd_of-Quiet :
      (code : String) (amount : D) → RateSilent sv.fx_rate → Quiet (usd_of sv code amount)
  unfolding usd_of
  usd_of-Quiet code amount h s =
      if-holds (λ p. Calm s p.1) (code == "USDC") _ _ s (refl, refl)
        (usd_at-Quiet code amount sv.fx_rate h s)

  -- What is found in front of the balances of the other lines.
  abbrev LineFound : String → String → Option D → Result (List (AssetBalance D)) → Type 0
  LineFound asset code o (ok l) =
      (rest : List (AssetBalance D))
      → find_balance asset (l ++ rest) ≡ line_amount asset code o (find_balance asset rest)
  LineFound asset code o (err e) = Unit

  balance_line-LineFound :
      (asset code : String) (o : Option D) (s : Vault D)
      → RateSilent sv.fx_rate
      → Calm s (balance_line sv code o s).1 × LineFound asset code o (balance_line sv code o s).0
  unfolding balance_line find_balance
  balance_line-LineFound asset code none s h = ((refl, refl), λ rest. refl)
  balance_line-LineFound asset code (some amount) s h =
      continue-holds (λ p. Calm s p.1 × LineFound asset code (some amount) p.0)
        (usd_of sv code amount s) _ (λ e. (usd_of-Quiet code amount h s, tt))
        (λ usd. (usd_of-Quiet code amount h s, λ rest. refl))

  abbrev pub Found : String → List AccountBalance → Result (List (AssetBalance D)) → Type 0
  Found asset bs (ok l) = find_balance asset l ≡ first_amount asset bs
  Found asset bs (err e) = Unit

  after_rest :
      (asset : String) (b : AccountBalance) (bs : List AccountBalance) (s : Vault D)
      (l : List (AssetBalance D)) (p : Result (List (AssetBalance D)) × Vault D)
      → LineFound asset (code_of b.code) (d.parse b.balance) (ok l)
      → Calm s p.1 × Found asset bs p.0
      → Calm s (continue p (λ rest. pure (l ++ rest))).1
        × Found asset (b ∷ bs) (continue p (λ rest. pure (l ++ rest))).0
  after_rest asset b bs s l (ok rest, s') f (c, g) =
      (c, f rest ∙ ap (line_amount asset (code_of b.code) (d.parse b.balance)) g)
  after_rest asset b bs s l (err e, s') f (c, g) = (c, tt)

  after_line :
      (asset : String) (b : AccountBalance) (bs : List AccountBalance) (s : Vault D)
      (p : Result (List (AssetBalance D)) × Vault D)
      → ((s' : Vault D)
          → Calm s' (collect_balances sv bs s').1 × Found asset bs (collect_balances sv bs s').0)
      → Calm s p.1 × LineFound asset (code_of b.code) (d.parse b.balance) p.0
      → Calm s (continue p (λ line. collect_balances sv bs >>= λ rest. pure (line ++ rest))).1
        × Found asset
            (b ∷ bs)
            (continue p (λ line. collect_balances sv bs >>= λ rest. pure (line ++ rest))).0
  after_line asset b bs s (ok l, s') ih (c, f) =
      let (c', g) = ih s' in
      after_rest asset b bs s l (collect_balances sv bs s') f ((c'.0 ∙ c.0, c'.1 ∙ c.1), g)
  after_line asset b bs s (err e, s') ih (c, f) = (c, tt)

  pub collect-Found :
      (asset : String) (bs : List AccountBalance) (s : Vault D)
      → RateSilent sv.fx_rate
      → Calm s (collect_balances sv bs s).1 × Found asset bs (collect_balances sv bs s).0
  unfolding collect_balances find_balance
  collect-Found asset [] s h = ((refl, refl), refl)
  collect-Found asset (b ∷ bs) s h =
      after_line asset b bs s (balance_line sv (code_of b.code) (d.parse b.balance) s)
        (λ s'. collect-Found asset bs s' h)
        (balance_line-LineFound asset (code_of b.code) (d.parse b.balance) s h)
