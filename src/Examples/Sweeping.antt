-- ===== src/Examples/Sweeping.antt =====
-- The theorem on the treasury.
use flowx.Prelude.{
  ℕ, Option, refl, String, true, some, none, List, [], ◌∷◌, string_eq, if◌then◌else◌, ◌==◌,
}
use flowx.Prelude.Int.{ℤ, pos}
use flowx.Decimal.{Decimal}
use flowx.Decimal.Laws.{IsDecimal}
use flowx.Decimal.Scaled.{scaled, scaled-IsDecimal}
use flowx.Exec.{pure}
use flowx.Settlement.{AccountBalance}
use flowx.Treasury.{Vault}
use flowx.Treasury.Balances.{Custody}
use flowx.Treasury.Sweep.{execute_sweep}
use flowx.Treasury.Sweepable.{steady}
use flowx.Treasury.Covered.{Covered, execute_sweep-Covered}
use flowx.Examples.{world}

abbrev hundred : Decimal ℤ
hundred = record scaled {
  parse = λ s. if s == "100.0000000" then some (pos 1_000_000_000) else none;
}

hundred-IsDecimal : IsDecimal hundred
hundred-IsDecimal = record {
  add_comm = scaled-IsDecimal.add_comm;
  add_assoc = scaled-IsDecimal.add_assoc;
  add-zero = scaled-IsDecimal.add-zero;
  sub-add = scaled-IsDecimal.sub-add;
  leq_refl = scaled-IsDecimal.leq_refl;
  leq_trans = scaled-IsDecimal.leq_trans;
  leq_antisymm = scaled-IsDecimal.leq_antisymm;
  leq_total = scaled-IsDecimal.leq_total;
  leq-add = scaled-IsDecimal.leq-add;
}

abbrev holdings : String → Option (List AccountBalance)
holdings key = some (record { code = "USDC"; issuer = "GC"; balance = "100.0000000" } ∷ [])

abbrev no_offers : String → Option ℕ
no_offers key = some 0

abbrev treasury : Custody ℤ
treasury = record {
  wallet_public_keys = pure [];
  load_account = λ key. pure [];
  offers = λ key limit. pure 0;
  fx_rate = none;
  fee_wallet = "GF";
  network = "testnet";
  treasury_secret_key = "ST";
  usdc_issuer = "GC";
  eurc_issuer = "GE";
  valid_key = λ key. true;
  build =
      λ source ops key passphrase. some (record { source = source; payments = ops; hash = "h1" });
  uuid = λ n. "s1";
}

abbrev vault : Vault ℤ
vault = record {
  configs =
      record {
        asset = "USDC";
        sweep_threshold = pos 0;
        min_operating_buffer = pos 300_000_000;
        cold_storage_address = "GCOLD";
        auto_sweep_enabled = true;
        updated_at = 0;
      }
      ∷ [];
  sweeps = [];
  world = world [];
}

execute_sweep_example :
    Covered ⦃d = hundred⦄ holdings no_offers [] treasury "USDC" (pos 500_000_000) "GCOLD" vault (
      execute_sweep ⦃d = hundred⦄
        (steady holdings no_offers [] treasury)
        "USDC"
        (pos 500_000_000)
        "GCOLD"
        "manual"
        vault)
execute_sweep_example =
    execute_sweep-Covered ⦃d = hundred⦄ holdings no_offers [] treasury hundred-IsDecimal "USDC"
      (pos 500_000_000) "GCOLD" "manual" vault tt refl
