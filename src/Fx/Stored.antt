-- ===== src/Fx/Stored.antt =====
-- A quote can be found until it expires.
use flowx.Prelude.{
  ℕ, ◌+◌, ◌≡◌, ◌∙◌, refl, ap, sym, String, Bool, true, false, not, Option, none, some, List, [],
  ◌∷◌, ◌==◌, string_eq, eq_refl, ltb, arith, if◌then◌else◌,
}
use flowx.Decimal.{Decimal}
use flowx.Exec.{
  Result, ok, err, continue, pure, raise, or_raise, logged, invalid_asset, invalid_quote_amount,
  ◌>>◌,
}
use flowx.Exec.Keeps.{if-cases, either-holds, continue-holds}
use flowx.Domain.{RateResponse}
use flowx.Table.{select_where, query_row}
use flowx.World.{next_fault}
use flowx.Fx.{Quote, Entry, Market, live, kv_get, kv_set}
use flowx.Fx.Rates.{get_rates}
use flowx.Fx.Quotes.{
  FxService, quote_key, quote_ttl, positive, quote_fee, create_quote, put_quote, store_quote, price,
  get_quote,
}

module _ {A : Type 0} where
  no_live :
      (key : String) (t : ℕ) (es : List (Entry A))
      → query_row (live key t) (select_where (λ x. not (x.key == key)) es) ≡ none
  unfolding query_row select_where
  no_live key t [] = refl
  no_live key t (e ∷ es) = ground (arith, no_live key t es)

  -- What SET has stored is what GET finds, until the deadline.
  pub kv_get-kv_set :
      (e : Entry A) (t : ℕ) (es : List (Entry A))
      → kv_get e.key t (kv_set e es) ≡ (if ltb t e.deadline then some e else none)
  unfolding kv_get kv_set query_row
  kv_get-kv_set e t es = ground (arith, no_live e.key t es, eq_refl e.key)

module _ {D : Type 0} ⦃d : Decimal D⦄ (sv : FxService D) (tenant : String) where
  -- What a call for a quote ends in.
  abbrev pub Stored : Result (Quote D) × Market D → Type 0
  Stored (ok q, s) =
      (positive sv tenant q.from_amount ≡ true)
      × (q.to_amount ≡ d.mul q.from_amount q.rate)
      × ((t : ℕ)
          → kv_get (quote_key q.id) t s.quotes ≡ (
              if ltb t q.expires_at
              then some (record { key = quote_key q.id; value = q; deadline = q.expires_at })
              else none))
  Stored (err e, s) = Unit

  create_quote-quotes : (q : Quote D) (s : Market D) → (create_quote q s).1.quotes ≡ s.quotes
  unfolding create_quote
  create_quote-quotes q s = ground arith

  audit-Stored :
      (b : Bool) (q : Quote D) (s : Market D)
      → Stored (ok q, s)
      → Stored (continue ((if b then logged (create_quote q) else pure tt) s) (λ _. pure q))
  audit-Stored true q s h = (h.0, h.1, λ t. rw (create_quote-quotes q s) (h.2 t))
  audit-Stored false q s h = h

  store_quote-Stored :
      (q : Quote D) (s : Market D)
      → positive sv tenant q.from_amount ≡ true
      → q.to_amount ≡ d.mul q.from_amount q.rate
      → q.expires_at ≡ s.world.now + quote_ttl
      → Stored (store_quote sv tenant q s)
  unfolding store_quote put_quote
  store_quote-Stored q s h e x =
      either-holds
        (λ (p : Result (Unit {0}) × Market D).
          Stored (
            continue p
              (λ _. (if sv.has_audit then logged (create_quote q) else pure tt) >> pure q)))
        (next_fault s.world.faults) _ _ tt
        (audit-Stored sv.has_audit q _ (
          h,
          e,
          λ t.
              kv_get-kv_set
                (record { key = quote_key q.id; value = q; deadline = s.world.now + quote_ttl }) t
                s.quotes
              ∙ ap
                  (λ (n : ℕ).
                    if ltb t n
                    then some (record { key = quote_key q.id; value = q; deadline = n })
                    else none)
                  (sym x),
        ))

  price-Stored :
      (from_asset to_asset : String) (amount : D) (resp : RateResponse D) (s : Market D)
      → positive sv tenant amount ≡ true
      → Stored (price sv tenant from_asset to_asset amount resp s)
  unfolding price
  price-Stored from_asset to_asset amount resp s h =
      continue-holds Stored (quote_fee sv tenant from_asset amount s) _ (λ e. tt)
        (λ fee. store_quote-Stored _ _ h refl refl)

  -- A quote that is returned is of a positive amount at its rate, and Redis gives it back for its
  -- id until it expires, and no longer.
  pub get_quote-Stored :
      (from_asset to_asset amount : String) (s : Market D)
      → Stored (get_quote sv tenant from_asset to_asset amount s)
  unfolding get_quote
  get_quote-Stored from_asset to_asset amount s =
      let p = get_rates sv.providers sv.spread_bps from_asset to_asset s in
      continue-holds Stored p _ (λ e. tt) (λ resp. parsed (d.parse amount) resp p.1)
    where
      parsed :
          (o : Option D) (resp : RateResponse D) (s : Market D)
          → Stored (
              continue (or_raise o invalid_asset s) (λ a.
                if positive sv tenant a
                then price sv tenant from_asset to_asset a resp
                else raise invalid_quote_amount))
      parsed none resp s = tt
      parsed (some a) resp s =
          if-cases Stored (positive sv tenant a) _ _ s
            (λ h. price-Stored from_asset to_asset a resp s h) (λ _. tt)
