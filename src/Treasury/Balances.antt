-- ===== src/Treasury/Balances.antt =====
-- internal/treasury/service.go: the balances of the fee wallet, the reserves of the network, and
-- what may be swept.
use flowx.Prelude.{
  ℕ, ◌+◌, String, Bool, Option, none, some, List, [], ◌∷◌, ◌++◌, length, ◌==◌, string_eq,
  if◌then◌else◌,
}
use flowx.Prelude.Int.{pos}
use flowx.Decimal.{Decimal, lt}
use flowx.Exec.{not_configured, pure, raise, catch, ◌>>=◌}
use flowx.World.{Action, Payment, Envelope}
use flowx.Settlement.{AccountBalance}
use flowx.Treasury.{Config, Keeping, on_world, get_config}

pub record AssetBalance (D : Type 0) : Type 0 where
  pub asset : String
  pub balance : D
  pub usd_equivalent : D

pub record ReserveBreakdown (D : Type 0) : Type 0 where
  pub wallet_count : ℕ
  pub trustline_count : ℕ
  pub offer_count : ℕ
  pub total_xlm_required : D
  pub current_xlm_balance : D
  pub surplus : D

-- What the service is built from. `build` stands for txnbuild and the signer, `valid_key` for the
-- parser of secret keys, `offers` for the number of an account's open offers, with the limit that is
-- asked for.
pub record Custody (D : Type 0) : Type 0 where
  pub wallet_public_keys : Action D (List String)
  pub load_account : String → Action D (List AccountBalance)
  pub offers : String → ℕ → Action D ℕ
  pub fx_rate : Option (String → String → Action D D)
  pub fee_wallet : String
  pub network : String
  pub treasury_secret_key : String
  pub usdc_issuer : String
  pub eurc_issuer : String
  pub valid_key : String → Bool
  pub build : String → List Payment → String → String → Option Envelope
  pub uuid : ℕ → String

abbrev pub code_of : String → String
code_of code = if code == "" then "XLM" else code

abbrev pub trustlines_of : List AccountBalance → ℕ
trustlines_of [] = 0
trustlines_of (b ∷ bs) = (if b.code == "" then 0 else 1) + trustlines_of bs

module _ {D : Type 0} ⦃d : Decimal D⦄ where
  -- `break` at the first balance of the asset
  unfoldable pub find_balance : String → List (AssetBalance D) → Option D
  find_balance asset [] = none
  find_balance asset (b ∷ bs) =
      let rest = find_balance asset bs in if b.asset == asset then some b.balance else rest

  -- the fee wallet's lumens: the last native balance that parses
  abbrev pub current_of : D → List AccountBalance → D
  current_of current [] = current
  current_of current (b ∷ bs) =
      current_of
        (if b.code == "" then elim (d.parse b.balance) [ none ↦ current | some a ↦ a ] else current)
        bs

  -- `baseReserve`, one half
  abbrev pub base_reserve : D
  base_reserve = d.div (d.from_int (pos 1)) (d.from_int (pos 2))

  -- the reserve of a number of accounts, trustlines and offers
  unfoldable pub required : ℕ → ℕ → ℕ → D
  required wallets trustlines offers =
      d.add
        (d.add (d.mul (d.mul base_reserve (d.from_int (pos 2))) (d.from_int (pos wallets)))
          (d.mul base_reserve (d.from_int (pos trustlines))))
        (d.mul base_reserve (d.from_int (pos offers)))

module _ {D : Type 0} ⦃d : Decimal D⦄ (sv : Custody D) where
  unfoldable pub usd_at : String → D → Option (String → String → Action D D) → Keeping D D
  usd_at code amount none = pure d.zero
  usd_at code amount (some rate) =
      catch (do r ← on_world (rate code "USDC"); pure (d.mul amount r)) (λ _. pure d.zero)

  -- the value of an amount in USDC; zero where there is no rate
  unfoldable pub usd_of : String → D → Keeping D D
  unfolding usd_at
  usd_of code amount = if code == "USDC" then pure amount else usd_at code amount sv.fx_rate

  -- one turn of the loop of `GetBalances`; a text that is no number is skipped
  unfoldable pub balance_line : String → Option D → Keeping D (List (AssetBalance D))
  unfolding usd_of
  balance_line code none = pure []
  balance_line code (some amount) = do
    usd ← usd_of code amount
    pure (record { asset = code; balance = amount; usd_equivalent = usd } ∷ [])

  unfoldable pub collect_balances : List AccountBalance → Keeping D (List (AssetBalance D))
  unfolding balance_line
  collect_balances [] = pure []
  collect_balances (b ∷ bs) = do
    line ← balance_line (code_of b.code) (d.parse b.balance)
    rest ← collect_balances bs
    pure (line ++ rest)

  -- `GetBalances`
  unfoldable pub get_balances : Keeping D (List (AssetBalance D))
  unfolding collect_balances
  get_balances =
      if sv.fee_wallet == ""
      then raise not_configured
      else (do lines ← on_world (sv.load_account sv.fee_wallet); collect_balances lines)

  -- the trustlines and offers of an account; one that cannot be read has none
  unfoldable pub subentries : String → Keeping D (ℕ × ℕ)
  subentries key =
      catch
        (do
          lines ← on_world (sv.load_account key)
          n ← catch (on_world (sv.offers key 200)) (λ _. pure 0)
          pure (trustlines_of lines, n))
        (λ _. pure (0, 0))

  unfoldable pub all_subentries : List String → Keeping D (ℕ × ℕ)
  unfolding subentries
  all_subentries [] = pure (0, 0)
  all_subentries (key ∷ keys) = do
    (t, o) ← subentries key
    (ts, os) ← all_subentries keys
    pure (t + ts, o + os)

  unfoldable pub current_xlm : Keeping D D
  current_xlm =
      if sv.fee_wallet == ""
      then pure d.zero
      else catch
          (do lines ← on_world (sv.load_account sv.fee_wallet); pure (current_of d.zero lines))
          (λ _. pure d.zero)

  -- `GetReserveBreakdown`
  unfoldable pub get_reserve_breakdown : Keeping D (ReserveBreakdown D)
  unfolding required
  get_reserve_breakdown = do
    keys ← on_world sv.wallet_public_keys
    (trustlines, offers) ← all_subentries keys
    current ← current_xlm
    let total = required (length keys) trustlines offers
    pure (record {
      wallet_count = length keys;
      trustline_count = trustlines;
      offer_count = offers;
      total_xlm_required = total;
      current_xlm_balance = current;
      surplus = d.sub current total;
    })

  -- `GetReserveRequirement`
  unfoldable pub get_reserve_requirement : Keeping D D
  get_reserve_requirement = do b ← get_reserve_breakdown; pure b.total_xlm_required

  -- the reserve that counts for an asset
  unfoldable pub reserve_for : String → Keeping D D
  reserve_for asset = if asset == "XLM" then get_reserve_requirement else pure d.zero

  -- what is left of a balance, floored at zero
  unfoldable pub above : D → D → D → D
  above balance reserve buffer =
      let sweepable = d.sub (d.sub balance reserve) buffer in
      if lt sweepable d.zero then d.zero else sweepable

  unfoldable pub sweepable_of : String → Config D → Option D → Keeping D D
  unfolding above
  sweepable_of asset cfg none = pure d.zero
  sweepable_of asset cfg (some balance) = do
    reserve ← reserve_for asset
    pure (above balance reserve cfg.min_operating_buffer)

  -- `GetSweepableAmount`
  unfoldable pub get_sweepable_amount : String → Keeping D D
  unfolding find_balance sweepable_of
  get_sweepable_amount asset = do
    cfg ← get_config asset
    balances ← get_balances
    sweepable_of asset cfg (find_balance asset balances)
