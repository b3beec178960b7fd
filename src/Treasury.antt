-- ===== src/Treasury.antt =====
-- internal/treasury and internal/postgres/treasury_repo.go: what of the fee wallet's balances may be
-- moved to cold storage, and the sweeps that move it, with their audit log.
pub mod Balances
pub mod Sweep
pub mod Found
pub mod Sweepable
pub mod Covered
use flowx.Prelude.{
  ℕ, ◌-◌, String, Bool, List, [], ◌∷◌, ◌++◌, ltb, ◌==◌, string_eq, count, if◌then◌else◌,
}
use flowx.Exec.{
  Exec, ok, err, call_failed, treasury_config_not_found, pure, gets, modify, or_raise, ◌>>=◌, ◌>>◌,
}
use flowx.Decimal.{Decimal}
use flowx.Table.{update_where, query_row}
use flowx.World.{World, Action, next_fault, rest_faults}

-- treasury.Config
pub record Config (D : Type 0) : Type 0 where
  pub asset : String
  pub sweep_threshold : D
  pub min_operating_buffer : D
  pub cold_storage_address : String
  pub auto_sweep_enabled : Bool
  pub updated_at : ℕ

-- treasury.SweepLog
pub record SweepLog (D : Type 0) : Type 0 where
  pub id : String
  pub asset : String
  pub amount : D
  pub destination : String
  pub tx_hash : String
  pub triggered_by : String
  pub swept_at : ℕ

pub record Vault (D : Type 0) : Type 0 where
  pub configs : List (Config D)
  pub sweeps : List (SweepLog D)
  pub world : World D

abbrev pub Keeping : Type 0 → Type 0 → Type 0
Keeping D A = Exec (Vault D) A

module _ {D A : Type 0} where
  -- A call of the other services, the network or the webhooks.
  abbrev pub on_world : Action D A → Keeping D A
  on_world m s = let (r, w) = m s.world in (r, record s { world = w })

  -- A call of the database that succeeds, or fails and does nothing.
  abbrev pub attempt : Keeping D A → Keeping D A
  attempt m s =
      let s' : Vault D = record s {
        world = record s.world { faults = rest_faults s.world.faults };
      } in
      if next_fault s.world.faults then (err call_failed, s') else m s'

module _ {D : Type 0} ⦃d : Decimal D⦄ where
  -- `GetConfig`; the columns are NUMERIC(20, 7), whose text always parses
  unfoldable pub get_config : String → Keeping D (Config D)
  unfolding query_row
  get_config asset = attempt (do
    row ← gets (λ s. query_row (λ c. c.asset == asset) s.configs)
    or_raise row treasury_config_not_found)

  -- `ListConfig`, without the order
  unfoldable pub list_config : Keeping D (List (Config D))
  list_config = attempt (gets (λ s. s.configs))

  abbrev pub rounded : ℕ → Config D → Config D
  rounded now cfg = record cfg {
    sweep_threshold = d.round7 cfg.sweep_threshold;
    min_operating_buffer = d.round7 cfg.min_operating_buffer;
    updated_at = now;
  }

  -- `UpdateConfig`: the row of the asset is replaced, or a new one is made
  unfoldable pub update_config : Config D → Keeping D (Unit {0})
  unfolding update_where
  update_config cfg = attempt (
      modify (λ s. record s {
        configs =
            if ltb 0 (count (λ c. c.asset == cfg.asset) s.configs)
            then update_where (λ c. c.asset == cfg.asset) (λ c. rounded s.world.now cfg) s.configs
            else s.configs ++ rounded s.world.now cfg ∷ [];
      }))

  -- `RecordSweep`
  unfoldable pub record_sweep : SweepLog D → Keeping D (Unit {0})
  record_sweep log = attempt (λ s.
      if ltb 0 (count (λ r. r.id == log.id) s.sweeps) then (err call_failed, s) else (
        ok tt,
        record s { sweeps = s.sweeps ++ record log { amount = d.round7 log.amount } ∷ [] },
      ))
