-- ===== src/Fx/Rates.antt =====
-- The rates of internal/fx/service.go and internal/fx/cache.go.
use mathlib.Core.Option
use flowx.Prelude.{
  ℕ, ◌+◌, String, Bool, false, ◌||◌, Option, none, some, List, [], ◌∷◌, ◌==◌, string_eq, concat,
  if◌then◌else◌,
}
use flowx.Prelude.Int.{ℤ, pos}
use flowx.Decimal.{Decimal}
use flowx.Exec.{
  Error, unsupported_pair, Result, ok, err, pure, raise, gets, modify, logged, catch, outcome_of,
  ◌>>=◌, ◌>>◌,
}
use flowx.Domain.{RateResponse}
use flowx.Fx.{Trading, attempt, kv_get, kv_set}

-- fx.Provider
pub record Provider (D : Type 0) : Type 0 where
  pub name : String
  pub supported_pairs : List String
  pub get_rate : String → String → Trading D D

abbrev pub rate_ttl : ℕ
rate_ttl = 60

abbrev pub rate_key : String → String → String
rate_key from to = concat "fx:rate:" (concat from (concat ":" to))

abbrev pub contains : String → List String → Bool
contains x [] = false
contains x (y ∷ ys) = y == x || contains x ys

module _ {D : Type 0} where
  -- `RateCache.Get`: an error of Redis is a miss
  unfoldable pub cache_get : String → String → Trading D (Option (RateResponse D))
  unfolding kv_get
  cache_get from to =
      catch
        (attempt
          (gets (λ s. Option.map (λ e. e.value) (kv_get (rate_key from to) s.world.now s.rates))))
        (λ _. pure none)

  -- `RateCache.Set`
  unfoldable pub cache_set : String → String → RateResponse D → Trading D (Unit {0})
  unfolding kv_set
  cache_set from to resp = logged (
      attempt (
        modify (λ s. record s {
          rates =
              kv_set
                (record { key = rate_key from to; value = resp; deadline = s.world.now + rate_ttl })
                s.rates;
        })))

  -- `registerActivePair`
  unfoldable pub register_active_pair : String → Trading D (Unit {0})
  register_active_pair pair = modify (λ s. record s {
    active_pairs = if contains pair s.active_pairs then s.active_pairs else pair ∷ s.active_pairs;
  })

module _ {D : Type 0} ⦃d : Decimal D⦄ (providers : List (Provider D)) (spread_bps : ℤ) where
  -- the rate with the spread on top
  unfoldable pub with_spread : D → D
  with_spread mid =
      d.mul mid
        (d.add (d.from_int (pos 1)) (d.div (d.from_int spread_bps) (d.from_int (pos 10000))))

  -- what a provider's answer leads to: its rate, or the next provider
  unfoldable pub after_rate :
      String → (Option Error → Trading D (RateResponse D)) → Result D → Trading D (RateResponse D)
  unfolding with_spread
  after_rate name rest (err e) = rest (some e)
  after_rate name rest (ok mid) = do
    now ← gets (λ s. s.world.now)
    pure (record {
      rate = with_spread mid;
      mid_market_rate = mid;
      spread_bps = spread_bps;
      provider = name;
      cached_at = now;
      stale = false;
    })

  -- the loop over the providers, with the last error
  unfoldable pub fetch_loop :
      List (Provider D) → String → String → Option Error → Trading D (RateResponse D)
  unfolding after_rate
  fetch_loop [] from to none = raise unsupported_pair
  fetch_loop [] from to (some e) = raise e
  fetch_loop (p ∷ ps) from to last =
      let rest = fetch_loop ps from to in
      if contains (concat from (concat "-" to)) p.supported_pairs
      then (do r ← outcome_of (p.get_rate from to); after_rate p.name rest r)
      else rest last

  -- `fetchRate`
  unfoldable pub fetch_rate : String → String → Trading D (RateResponse D)
  unfolding fetch_loop
  fetch_rate from to = fetch_loop providers from to none

  -- what `GetRates` does without a cached rate
  unfoldable pub fetch_and_cache : String → String → Trading D (RateResponse D)
  fetch_and_cache from to = do
    resp ← fetch_rate from to
    cache_set from to resp
    register_active_pair (concat from (concat ":" to))
    pure resp

  -- `GetRates`
  unfoldable pub get_rates : String → String → Trading D (RateResponse D)
  get_rates from to = do
    cached ← cache_get from to
    elim cached [ some resp ↦ pure resp | none ↦ fetch_and_cache from to ]

  -- one round of `backgroundRefresh`, over the pairs as they are taken apart
  unfoldable pub refresh_pairs : List (String × String) → Trading D (Unit {0})
  refresh_pairs [] = pure tt
  refresh_pairs ((from, to) ∷ pairs) = do
    logged (do resp ← fetch_rate from to; cache_set from to resp)
    refresh_pairs pairs
