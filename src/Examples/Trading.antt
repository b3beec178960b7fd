-- ===== src/Examples/Trading.antt =====
-- The theorems on foreign exchange.
use flowx.Prelude.{refl, true, false, some, none, [], ◌∷◌, arith, string_eq, if◌then◌else◌, ◌==◌}
use flowx.Prelude.Int.{ℤ, pos}
use flowx.Decimal.{Decimal}
use flowx.Decimal.Scaled.{scaled}
use flowx.Exec.{fee_schedule_not_found, raise, pure}
use flowx.Domain.{Conversion}
use flowx.Fx.{Quote, Market}
use flowx.Fx.Quotes.{
  FxService, execute_conversion, claim_quote, mark_entry, check_quote, convert, create_conversion,
  mark_quote_used, pay_out, pay_with, get_quote,
}
use flowx.Fx.Once.{execute, wait, replay, Refused, quote_once}
use flowx.Fx.Stored.{Stored, get_quote-Stored}
use flowx.Fx.Rates.{Provider}
use flowx.Examples.{world, wallet}

abbrev half : Provider ℤ
half = record {
  name = "static";
  supported_pairs = "USDC-TXDC" ∷ [];
  get_rate = λ from to. pure (pos 5_000_000);
}

abbrev ten : Decimal ℤ
ten = record scaled { parse = λ s. if s == "10" then some (pos 100_000_000) else none }

abbrev desk : FxService ℤ
desk = record {
  providers = half ∷ [];
  spread_bps = pos 50;
  get_schedule = λ tenant asset. raise fee_schedule_not_found;
  find_wallet = λ id. pure (wallet id);
  has_audit = true;
  transfer = some (λ key amount. pure "h1");
  whole = λ a. a;
  uuid = λ n. "q1";
}

abbrev quote : Quote ℤ
quote = record {
  id = "q1";
  org_id = "acme";
  from_asset = "USDC";
  to_asset = "TXDC";
  from_amount = pos 100;
  to_amount = pos 50;
  rate = pos 5_000_000;
  fee = pos 0;
  expires_at = 1300;
  used = false;
}

abbrev market : Market ℤ
market = record {
  rates = [];
  quotes = record { key = "fx:quote:q1"; value = quote; deadline = 1300 } ∷ [];
  active_pairs = [];
  conversions = [];
  audits = [];
  paid = [];
  world = world [];
}

abbrev conversion : Conversion ℤ
conversion = record {
  id = "q1";
  wallet_id = "w1";
  source_asset = "USDC";
  dest_asset = "TXDC";
  source_amount = pos 100;
  dest_amount = pos 50;
  fee_amount = pos 0;
  fee_bps = pos 0;
  rate = pos 5_000_000;
  tx_hash = "h1";
  created_at = 1000;
}

quote_once_example :
    let s' =
      replay desk "acme"
        (wait 10 ∷ execute "w3" "q2" ∷ [])
        (execute_conversion desk "acme" "w1" "q1" market).1 in
    Refused desk "acme" s' (execute_conversion desk "acme" "w2" "q1" s')
unfolding execute_conversion claim_quote mark_entry check_quote convert create_conversion
    mark_quote_used pay_out pay_with
quote_once_example =
    quote_once desk "acme" "q1" "w1" "w2" (wait 10 ∷ execute "w3" "q2" ∷ []) market conversion
      (omega arith) refl

get_quote_example :
    Stored ⦃d = ten⦄ desk "acme" (get_quote ⦃d = ten⦄ desk "acme" "USDC" "TXDC" "10" market)
get_quote_example = get_quote-Stored ⦃d = ten⦄ desk "acme" "USDC" "TXDC" "10" market
