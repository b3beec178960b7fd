-- ===== src/Fx/Quotes.antt =====
-- The quotes and conversions of internal/fx/service.go, with their rows of internal/postgres.
use flowx.Prelude.{
  ℕ, ◌+◌, String, Bool, true, false, not, ◌&&◌, ◌||◌, eqb, Option, none, some, List, [], ◌∷◌, ◌++◌,
  ◌==◌, string_eq, has, concat, ltb, count, if◌then◌else◌,
}
use flowx.Prelude.Int.{ℤ, pos}
use flowx.Decimal.{Decimal}
use flowx.Exec.{
  invalid_asset, invalid_quote_amount, quote_expired, quote_already_used, call_failed,
  quote_ownership_mismatch, ok, err, pure, raise, gets, modify, or_raise, logged, catch, ◌>>=◌,
  ◌>>◌,
}
use flowx.Domain.{Wallet, FeeSchedule, RateResponse, Conversion}
use flowx.Fees.{calculate_fee}
use flowx.Table.{update_where}
use flowx.World.{Action, draw}
use flowx.Fx.{Quote, Entry, Trading, on_world, attempt, live, kv_get, kv_set}
use flowx.Fx.Rates.{Provider, get_rates}

-- What the service is built from. `transfer` stands for the XDC client with the treasury's key, and
-- `whole` for the integer that `StringFixed(0)` of a decimal spells.
pub record FxService (D : Type 0) : Type 0 where
  pub providers : List (Provider D)
  pub spread_bps : ℤ
  pub get_schedule : Option String → String → Trading D (FeeSchedule D)
  pub find_wallet : String → Action D Wallet
  pub has_audit : Bool
  pub transfer : Option (String → ℤ → Action D String)
  pub whole : D → ℤ
  pub uuid : ℕ → String

abbrev pub quote_ttl : ℕ
quote_ttl = 300

abbrev pub quote_key : String → String
quote_key id = concat "fx:quote:" id

module _ {D : Type 0} where
  -- `CreateQuote`
  unfoldable pub create_quote : Quote D → Trading D (Unit {0})
  create_quote q = attempt (λ s.
      if ltb 0 (count (λ r. r.quote.id == q.id) s.audits) then (err call_failed, s) else (
        ok tt,
        record s {
          audits =
              s.audits
              ++ record { quote = q; used = false; conversion_id = none; created_at = s.world.now }
                ∷ [];
        },
      ))

  -- `MarkQuoteUsed`
  unfoldable pub mark_quote_used : String → String → Trading D (Unit {0})
  unfolding update_where
  mark_quote_used quote_id conversion_id = attempt (
      modify (λ s. record s {
        audits =
            update_where (λ r. r.quote.id == quote_id)
              (λ r. record r { used = true; conversion_id = some conversion_id }) s.audits;
      }))

  -- `ConversionRepo.Create`
  unfoldable pub create_conversion : Conversion D → Trading D (Unit {0})
  create_conversion c = attempt (λ s.
      if ltb 0 (count (λ r. r.id == c.id) s.conversions)
      then (err call_failed, s)
      else (ok tt, record s { conversions = s.conversions ++ c ∷ [] }))

  -- what `markUsedScript` makes of the entry: the quote as it was
  unfoldable pub mark_entry : Option (Entry (Quote D)) → String → Trading D (Quote D)
  unfolding update_where
  mark_entry none key = raise quote_expired
  mark_entry (some e) key = if e.value.used then raise quote_already_used else (do
    modify (λ s. record s {
      quotes =
          update_where (live key s.world.now)
            (λ x. record x { value = record x.value { used = true } }) s.quotes;
    })
    pure e.value)

  -- `markUsedScript`, which Redis runs as one step
  unfoldable pub claim_quote : String → Trading D (Quote D)
  unfolding kv_get
  claim_quote id = attempt (do
    found ← gets (λ s. kv_get (quote_key id) s.world.now s.quotes)
    mark_entry found (quote_key id))

abbrev pub where_set : {D X A : Type 0} → Option X → (X → Trading D A) → A → Trading D A
where_set none f a = pure a
where_set (some x) f a = f x

module _ {D : Type 0} ⦃d : Decimal D⦄ (sv : FxService D) (tenant : String) where
  abbrev pub positive : D → Bool
  positive a = not (d.leq a d.zero)

  -- the conversion fee, or zero where it cannot be read
  unfoldable pub quote_fee : String → D → Trading D D
  unfolding calculate_fee
  quote_fee asset amount =
      catch (do f ← calculate_fee sv.get_schedule tenant asset amount false; pure f.fee_amount)
        (λ _. pure d.zero)

  -- from the quote on: it is stored, and its audit row is written
  unfoldable pub put_quote : Quote D → Trading D (Unit {0})
  put_quote q = attempt (
      modify (λ s. record s {
        quotes =
            kv_set (record { key = quote_key q.id; value = q; deadline = s.world.now + quote_ttl })
              s.quotes;
      }))

  unfoldable pub store_quote : Quote D → Trading D (Quote D)
  store_quote q = do put_quote q; if sv.has_audit then logged (create_quote q) else pure tt; pure q

  -- from the amount on
  unfoldable pub price : String → String → D → RateResponse D → Trading D (Quote D)
  price from_asset to_asset amount resp = do
    fee ← quote_fee from_asset amount
    id ← on_world (draw sv.uuid)
    now ← gets (λ s. s.world.now)
    store_quote (record {
      id = id;
      org_id = tenant;
      from_asset = from_asset;
      to_asset = to_asset;
      from_amount = amount;
      to_amount = d.mul amount resp.rate;
      rate = resp.rate;
      fee = fee;
      expires_at = now + quote_ttl;
      used = false;
    })

  -- `GetQuote`
  unfoldable pub get_quote : String → String → String → Trading D (Quote D)
  get_quote from_asset to_asset amount = do
    resp ← get_rates sv.providers sv.spread_bps from_asset to_asset
    a ← or_raise (d.parse amount) invalid_asset
    if positive a then price from_asset to_asset a resp else raise invalid_quote_amount

  -- the three tests on a quote that was claimed; the zero time, which does not expire, is 0
  unfoldable pub check_quote : Wallet → Quote D → Trading D (Unit {0})
  check_quote w q = if not (has w.tenant_id q.org_id) then raise quote_ownership_mismatch else (do
    now ← gets (λ s. s.world.now)
    if not (eqb q.expires_at 0) && ltb q.expires_at now
        then raise quote_expired
        else if not (positive q.from_amount) || not (positive q.to_amount)
        then raise invalid_quote_amount
        else pure tt)

  unfoldable pub pay_with : String → Quote D → (String → ℤ → Action D String) → Trading D String
  pay_with wallet_id q transfer = do
    w ← on_world (sv.find_wallet wallet_id)
    if w.public_key == "" then pure "" else (do
      hash ← on_world (transfer w.public_key (sv.whole q.to_amount))
      modify (λ s. record s { paid = (w.public_key, sv.whole q.to_amount) ∷ s.paid })
      pure hash)

  -- the payment from the treasury, where one is set up; every failure leaves the hash empty
  unfoldable pub pay_out : String → Quote D → Trading D String
  unfolding pay_with
  pay_out wallet_id q =
      where_set sv.transfer (λ transfer. catch (pay_with wallet_id q transfer) (λ _. pure "")) ""

  -- from the checked quote on
  unfoldable pub convert : String → Quote D → Trading D (Conversion D)
  convert wallet_id q = do
    id ← on_world (draw sv.uuid)
    now ← gets (λ s. s.world.now)
    let conv : Conversion D = record {
      id = id;
      wallet_id = wallet_id;
      source_asset = q.from_asset;
      dest_asset = q.to_asset;
      source_amount = q.from_amount;
      dest_amount = q.to_amount;
      fee_amount = q.fee;
      fee_bps = pos 0;
      rate = q.rate;
      tx_hash = "";
      created_at = now;
    }
    create_conversion conv
    hash ← pay_out wallet_id q
    if sv.has_audit then logged (mark_quote_used q.id conv.id) else pure tt
    pure (record conv { tx_hash = hash })

  -- `ExecuteConversion`
  unfoldable pub execute_conversion : String → String → Trading D (Conversion D)
  execute_conversion wallet_id quote_id = do
    w ← on_world (sv.find_wallet wallet_id)
    q ← claim_quote quote_id
    check_quote w q
    convert wallet_id q
