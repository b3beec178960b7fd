-- ===== src/Treasury/Sweep.antt =====
-- internal/treasury/service.go and worker.go: the sweep of an asset, and the daily run over all.
use flowx.Prelude.{
  String, not, ◌||◌, Option, none, some, List, [], ◌∷◌, ◌==◌, string_eq, if◌then◌else◌,
}
use flowx.Decimal.{Decimal, gt, equal}
use flowx.Exec.{
  Result, ok, err, insufficient_sweepable_balance, not_configured, missing_destination, missing_key,
  chain_error, pure, raise, gets, or_raise, logged, outcome_of, ◌>>=◌, ◌>>◌,
}
use flowx.Domain.{treasury_sweep_completed}
use flowx.World.{Payment, Envelope, SubmitReply, accepted, refused, draw, dispatch}
use flowx.Submission.{submit_once}
use flowx.Treasury.{Config, Keeping, on_world, list_config, record_sweep}
use flowx.Treasury.Balances.{Custody, get_sweepable_amount}

module _ {D : Type 0} ⦃d : Decimal D⦄ (sv : Custody D) where
  -- `buildAsset`: the code and the issuer
  unfoldable pub sweep_asset : String → String × Option String
  sweep_asset code =
      if code == "XLM"
      then ("XLM", none)
      else if code == "USDC"
      then (code, some sv.usdc_issuer)
      else if code == "EURC"
      then (code, some sv.eurc_issuer)
      else (code, some "")

  -- `networkPassphrase`
  unfoldable pub passphrase : String
  passphrase =
      if sv.network == "mainnet" || sv.network == "public"
      then "Public Global Stellar Network ; September 2015"
      else "Test SDF Network ; September 2015"

  -- the one operation of a sweep
  abbrev pub sweep_payment : String → D → String → Payment
  sweep_payment asset amount destination = record {
    destination = destination;
    asset_code = (sweep_asset asset).0;
    issuer = (sweep_asset asset).1;
    amount = d.string_fixed7 amount;
  }

  -- the row of the audit log, and its INSERT
  unfoldable pub log_sweep : String → D → String → String → String → Keeping D (Unit {0})
  log_sweep asset amount destination hash triggered_by = do
    id ← on_world (draw sv.uuid)
    now ← gets (λ s. s.world.now)
    record_sweep (record {
      id = id;
      asset = asset;
      amount = amount;
      destination = destination;
      tx_hash = hash;
      triggered_by = triggered_by;
      swept_at = now;
    })

  -- from the settings to the signed envelope
  unfoldable pub prepare_sweep : String → D → String → Keeping D Envelope
  unfolding sweep_asset
  prepare_sweep asset amount destination =
      if sv.treasury_secret_key == ""
      then raise not_configured
      else if destination == ""
      then raise missing_destination
      else if not (sv.valid_key sv.treasury_secret_key)
      then raise missing_key
      else (do
        account ← on_world (sv.load_account sv.fee_wallet)
        or_raise
            (sv.build sv.fee_wallet (sweep_payment asset amount destination ∷ [])
              sv.treasury_secret_key passphrase)
            chain_error)

  -- what follows the submission
  unfoldable pub after_submit : String → D → String → String → SubmitReply → Keeping D String
  unfolding log_sweep
  after_submit asset amount destination triggered_by (refused text) = raise chain_error
  after_submit asset amount destination triggered_by (accepted hash) = do
    logged (log_sweep asset amount destination hash triggered_by)
    on_world (dispatch treasury_sweep_completed hash)
    pure hash

  -- a sweep of nothing leaves its row
  unfoldable pub zero_sweep : String → String → String → Keeping D String
  unfolding log_sweep
  zero_sweep asset destination triggered_by = do
    log_sweep asset d.zero destination "" triggered_by
    pure ""

  unfoldable pub send_sweep : String → D → String → String → Keeping D String
  send_sweep asset amount destination triggered_by = do
    e ← prepare_sweep asset amount destination
    reply ← on_world (submit_once e)
    after_submit asset amount destination triggered_by reply

  -- what follows the computation of what is sweepable
  unfoldable pub sweep_within : String → D → String → String → D → Keeping D String
  unfolding zero_sweep send_sweep
  sweep_within asset amount destination triggered_by sweepable =
      if gt amount sweepable
      then raise insufficient_sweepable_balance
      else if equal amount d.zero
      then zero_sweep asset destination triggered_by
      else send_sweep asset amount destination triggered_by

  -- `ExecuteSweep`
  unfoldable pub execute_sweep : String → D → String → String → Keeping D String
  execute_sweep asset amount destination triggered_by = do
    sweepable ← get_sweepable_amount sv asset
    sweep_within asset amount destination triggered_by sweepable

  -- the sweep of an asset whose sweepable amount is known
  unfoldable pub auto_sweep : Config D → Result D → Keeping D (Unit {0})
  auto_sweep cfg (err e) = pure tt
  auto_sweep cfg (ok sweepable) = logged (do
    execute_sweep cfg.asset (if gt sweepable cfg.sweep_threshold then sweepable else d.zero)
        cfg.cold_storage_address "auto"
    pure tt)

  unfoldable pub sweep_all : List (Config D) → Keeping D (Unit {0})
  unfolding auto_sweep
  sweep_all [] = pure tt
  sweep_all (cfg ∷ cfgs) = do
    if cfg.auto_sweep_enabled
        then (do
          sweepable ← outcome_of (get_sweepable_amount sv cfg.asset)
          auto_sweep cfg sweepable)
        else pure tt
    sweep_all cfgs

  -- `HandleSweep`
  unfoldable pub handle_sweep : Keeping D (Unit {0})
  handle_sweep = do cfgs ← list_config; sweep_all cfgs
