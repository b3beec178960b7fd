-- ===== src/Treasury/Sweepable.antt =====
-- What the sweepable amount is, over accounts that stay as they are.
use flowx.Prelude.{
  ℕ, ◌+◌, ◌≡◌, ◌∙◌, ◌⊎◌, refl, sym, Bool-cases, inl, inr, String, Option, none, some, List, [], ◌∷◌,
  length, ltb, ◌==◌, string_eq, arith, if◌then◌else◌,
}
use flowx.Decimal.{Decimal, lt}
use flowx.Exec.{Result, ok, err, continue, raise, pure, catch, chain_error, ◌>>=◌}
use flowx.World.{Action}
use flowx.Exec.Keeps.{if-holds, either-holds}
use flowx.Table.{query_row}
use flowx.Settlement.{AccountBalance}
use flowx.Treasury.{Config, Vault, on_world, get_config}
use flowx.Treasury.Balances.{
  AssetBalance, Custody, trustlines_of, current_of, collect_balances, find_balance, required,
  get_balances, subentries, all_subentries, current_xlm, get_reserve_breakdown,
  get_reserve_requirement, reserve_for, above, sweepable_of, get_sweepable_amount,
}
use flowx.Treasury.Found.{RateSilent, first_amount, Calm, Found, collect-Found}

abbrev pub sum_of : (String → ℕ) → List String → ℕ
sum_of f [] = 0
sum_of f (key ∷ keys) = f key + sum_of f keys

-- The lines of an account: none of one that cannot be read.
abbrev pub lines_of : Option (List AccountBalance) → List AccountBalance
lines_of none = []
lines_of (some ls) = ls

abbrev capped : ℕ → Option ℕ → Option ℕ
capped limit none = none
capped limit (some n) = some (if ltb limit n then limit else n)

-- The offers that count: at most 200 of an account that can be read.
abbrev pub offers_of : Option (List AccountBalance) → Option ℕ → ℕ
offers_of none o = 0
offers_of (some ls) none = 0
offers_of (some ls) (some n) = if ltb 200 n then 200 else n

-- The reserve that is counted for an asset: of lumens, that of all wallets, the trustlines and the
-- offers of those only that can be read.
abbrev pub reserve_of :
    {D : Type 0} ⦃d : Decimal D⦄
    → (String → Option (List AccountBalance))
    → (String → Option ℕ)
    → List String
    → String
    → D
reserve_of ⦃d⦄ accounts offers keys asset =
    if asset == "XLM"
    then required (length keys) (sum_of (λ key. trustlines_of (lines_of (accounts key))) keys)
        (sum_of (λ key. offers_of (accounts key) (offers key)) keys)
    else d.zero

abbrev pub reply_of : {D A : Type 0} → Option A → Action D A
reply_of none = raise chain_error
reply_of (some a) = pure a

-- The service where the accounts, the offers and the wallets stay as they are while it runs.
abbrev pub steady :
    {D : Type 0}
    → (String → Option (List AccountBalance))
    → (String → Option ℕ)
    → List String
    → Custody D
    → Custody D
steady accounts offers keys sv = record sv {
  load_account = λ key. reply_of (accounts key);
  offers = λ key limit. reply_of (capped limit (offers key));
  wallet_public_keys = λ w. (ok keys, w);
}

module _ {D : Type 0} ⦃d : Decimal D⦄ (accounts : String → Option (List AccountBalance))
    (offers : String → Option ℕ) (keys : List String) (custody : Custody D) where
  abbrev pub sv : Custody D
  sv = steady accounts offers keys custody

  subentries_lem :
      (k : String) (s : Vault D)
      → subentries sv k s
        ≡ (ok (trustlines_of (lines_of (accounts k)), offers_of (accounts k) (offers k)), s)
  unfolding subentries
  subentries_lem k s = read (accounts k) (offers k)
    where
      read :
          (a : Option (List AccountBalance)) (o : Option ℕ)
          → catch {A = ℕ × ℕ}
              (do
                lines ← on_world (reply_of a)
                n ← catch (on_world (reply_of (capped 200 o))) (λ _. pure 0)
                pure (trustlines_of lines, n))
              (λ _. pure (0, 0))
              s
            ≡ (ok (trustlines_of (lines_of a), offers_of a o), s)
      read none o = refl
      read (some ls) none = refl
      read (some ls) (some n) = refl

  all_subentries_lem :
      (ks : List String) (s : Vault D)
      → all_subentries sv ks s ≡ (
        ok (
          sum_of (λ key. trustlines_of (lines_of (accounts key))) ks,
          sum_of (λ key. offers_of (accounts key) (offers key)) ks,
        ),
        s,
      )
  unfolding all_subentries
  all_subentries_lem [] s = refl
  all_subentries_lem (k ∷ ks) s = rw (subentries_lem k s) (rw (all_subentries_lem ks s))

  current_xlm_lem : (s : Vault D) → (a : D) × (current_xlm sv s ≡ (ok a, s))
  unfolding current_xlm
  current_xlm_lem s =
      if-holds (λ p. (a : D) × (p ≡ (ok a, s))) (custody.fee_wallet == "") _ _ s (d.zero, refl)
        (read (accounts custody.fee_wallet))
    where
      read :
          (o : Option (List AccountBalance))
          → (a : D) × (catch
                (do lines ← on_world (reply_of o); pure (current_of d.zero lines))
                (λ _. pure d.zero)
                s
              ≡ (ok a, s))
      read none = (d.zero, refl)
      read (some ls) = (current_of d.zero ls, refl)

  requirement_lem :
      (s : Vault D)
      → get_reserve_requirement sv s ≡ (
        ok (
            required
              (length keys)
              (sum_of (λ key. trustlines_of (lines_of (accounts key))) keys)
              (sum_of (λ key. offers_of (accounts key) (offers key)) keys)),
        s,
      )
  unfolding get_reserve_requirement get_reserve_breakdown
  requirement_lem s = let (a, e) = current_xlm_lem s in rw (all_subentries_lem keys s) (rw e)

  reserve_for_lem :
      (asset : String) (s : Vault D)
      → reserve_for sv asset s ≡ (ok (reserve_of accounts offers keys asset), s)
  unfolding reserve_for
  reserve_for_lem asset s = elim (Bool-cases (asset == "XLM")) [
    | inl e ↦ rw e (requirement_lem s)
    | inr e ↦ rw e
  ]

  -- What the sweepable amount is, where it is returned: zero, or the balance less the reserve and
  -- the buffer.
  abbrev pub Computed : String → Vault D → Result D × Vault D → Type 0
  Computed asset s (ok v, s') =
      Calm s s'
      × ((v ≡ d.zero)
          ⊎ ((balance : D) × (cfg : Config D) × (first_amount asset
                  (lines_of (accounts custody.fee_wallet))
                ≡ some balance)
              × (query_row (λ c. c.asset == asset) s.configs ≡ some cfg)
              × (v
                  ≡ d.sub (d.sub balance (reserve_of accounts offers keys asset))
                      cfg.min_operating_buffer)))
  Computed asset s (err e, s') = Calm s s'

  sweepable_of-Computed :
      (asset : String) (cfg : Config D) (o : Option D) (s s' : Vault D)
      → o ≡ first_amount asset (lines_of (accounts custody.fee_wallet))
      → query_row (λ c. c.asset == asset) s.configs ≡ some cfg
      → Calm s s'
      → Computed asset s (sweepable_of sv asset cfg o s')
  unfolding sweepable_of above
  sweepable_of-Computed asset cfg none s s' e f c = (c, inl refl)
  sweepable_of-Computed asset cfg (some balance) s s' e f c =
      let r = reserve_of accounts offers keys asset in
      rw (reserve_for_lem asset s') (
        c,
        either-holds
            (λ v.
              (v ≡ d.zero)
              ⊎ ((b : D) × (cfg' : Config D) × (first_amount asset
                      (lines_of (accounts custody.fee_wallet))
                    ≡ some b)
                  × (query_row (λ c. c.asset == asset) s.configs ≡ some cfg')
                  × (v ≡ d.sub (d.sub b r) cfg'.min_operating_buffer)))
            (lt (d.sub (d.sub balance r) cfg.min_operating_buffer) d.zero) _ _ (inl refl)
            (inr (balance, cfg, sym e, f, refl)),
      )

  get_config_lem :
      (asset : String) (s : Vault D)
      → Calm s (get_config asset s).1
        × ((cfg : Config D)
            → (get_config asset s).0 ≡ ok cfg
            → query_row (λ c. c.asset == asset) s.configs ≡ some cfg)
  unfolding get_config
  get_config_lem asset s = ((ground arith, ground arith), λ cfg e. ground arith)

  after_balances :
      (asset : String) (cfg : Config D) (s : Vault D) (p : Result (List (AssetBalance D)) × Vault D)
      → query_row (λ c. c.asset == asset) s.configs ≡ some cfg
      → Calm s p.1 × Found custody asset (lines_of (accounts custody.fee_wallet)) p.0
      → Computed asset s
          (continue p (λ balances. sweepable_of sv asset cfg (find_balance asset balances)))
  after_balances asset cfg s (ok l, s') e (c, f) =
      sweepable_of-Computed asset cfg (find_balance asset l) s s' f e c
  after_balances asset cfg s (err x, s') e (c, f) = c

  get_balances-Found :
      (asset : String) (s : Vault D)
      → RateSilent custody.fx_rate
      → Calm s (get_balances sv s).1
        × Found custody asset (lines_of (accounts custody.fee_wallet)) (get_balances sv s).0
  unfolding get_balances
  get_balances-Found asset s h =
      if-holds (λ p. Calm s p.1 × Found custody asset (lines_of (accounts custody.fee_wallet)) p.0)
        (custody.fee_wallet == "") _ _ s ((refl, refl), tt) (read (accounts custody.fee_wallet))
    where
      read :
          (o : Option (List AccountBalance))
          → let q = (do lines ← on_world (reply_of o); collect_balances sv lines) s in
            Calm s q.1 × Found custody asset (lines_of o) q.0
      read none = ((refl, refl), tt)
      read (some ls) = collect-Found sv asset ls s h

  after_config :
      (asset : String) (s : Vault D) (p : Result (Config D) × Vault D)
      → RateSilent custody.fx_rate
      → Calm s p.1
      → ((cfg : Config D) → p.0 ≡ ok cfg → query_row (λ c. c.asset == asset) s.configs ≡ some cfg)
      → Computed asset s (
          continue p (λ cfg. get_balances sv >>= λ balances.
          sweepable_of sv asset cfg (find_balance asset balances)))
  after_config asset s (err x, s') h c f = c
  after_config asset s (ok cfg, s') h c f =
      let (c', g) = get_balances-Found asset s' h in
      after_balances asset cfg s (get_balances sv s') (f cfg refl) ((c'.0 ∙ c.0, c'.1 ∙ c.1), g)

  pub sweepable-Computed :
      (asset : String) (s : Vault D)
      → RateSilent custody.fx_rate
      → Computed asset s (get_sweepable_amount sv asset s)
  unfolding get_sweepable_amount
  sweepable-Computed asset s h =
      let g = get_config_lem asset s in after_config asset s (get_config asset s) h g.0 g.1
