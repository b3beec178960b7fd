-- ===== src/Xdc/Engine.antt =====
-- internal/settlement/xdc_engine.go: a transaction of the queue is claimed and paid on the XDC chain,
-- and is confirmed once enough blocks bury it. A call of the engine is one step, so the lock for
-- each wallet, which keeps the broadcasts of concurrent calls apart, does not show.
use flowx.Prelude.{
  ◌^◌, String, Bool, true, false, not, ◌&&◌, Option, none, some, ◌==◌, string_eq, if◌then◌else◌,
}
use flowx.Prelude.Int.{ℤ, pos}
use flowx.Decimal.{Decimal, gt}
use flowx.Exec.{
  concurrent_update, invalid_asset, chain_error, Result, ok, err, pure, raise, logged, or_raise,
  outcome_of, ◌>>=◌, ◌>>◌,
}
use flowx.Domain.{Transaction, net_amount, Wallet, FeeCollection}
use flowx.Domain.Status.{submitted, confirmed, failed}
use flowx.World.{Action, attempt}
use flowx.TxRepo.{get_by_id, claim_for_submission, update_status, nullable_uuid}
use flowx.Transfer.Address.{codes, strip, is_native_asset}
use flowx.Settlement.{is_hex_text, upsert_balance, record_collection}
use flowx.Xdc.{OnChain, Node, on_world, balance, transfer, wait_confirmations}

-- What the engine is built from. `decrypt` stands for the decryption of the bytes that a
-- hexadecimal text spells; `big_int` and `to_text` for `BigInt` and `String` of a decimal.
pub record XdcEngine (D : Type 0) : Type 0 where
  pub find_wallet : String → Action D Wallet
  pub node : Node D
  pub decrypt : String → Option String
  pub big_int : D → ℤ
  pub to_text : D → String
  pub fee_wallet : String
  pub tenant : String

abbrev pub has_prefix : String → String → Bool
has_prefix text part = elim (strip (codes part) (codes text)) [ some rest ↦ true | none ↦ false ]

module _ {D : Type 0} ⦃d : Decimal D⦄ (eng : XdcEngine D) where
  -- `txdcToWeiX`
  unfoldable pub txdc_to_wei : D → ℤ
  txdc_to_wei amount = eng.big_int (d.mul amount (d.from_int (pos (10 ^ 18))))

  -- `weiToTXDCX`
  unfoldable pub wei_to_txdc : ℤ → D
  wei_to_txdc wei = d.div (d.from_int wei) (d.from_int (pos (10 ^ 18)))

  -- `syncBalance`
  unfoldable pub sync_balance : Wallet → Action D (Unit {0})
  unfolding wei_to_txdc upsert_balance balance
  sync_balance wl = logged (do
    wei ← balance eng.node wl.public_key ""
    attempt (λ w. (
      ok tt,
      record w {
        balances =
            upsert_balance
              (record {
                wallet_id = wl.id;
                asset_code = "TXDC";
                issuer = "";
                balance = eng.to_text (wei_to_txdc wei);
              })
              w.balances;
      },
    )))

  -- the destination of `SubmitTransfer`: the address of a payout, or the wallet with its key
  unfoldable pub destination : Transaction D → Action D (String × Option Wallet)
  destination tx =
      if tx.to_address == ""
      then (do dst ← eng.find_wallet tx.to_wallet; pure (dst.public_key, some dst))
      else pure (tx.to_address, none)

  -- `decryptSecret`
  unfoldable pub decrypt_secret : String → Action D String
  unfolding is_hex_text
  decrypt_secret encrypted =
      if is_hex_text (codes encrypted)
      then or_raise (eng.decrypt encrypted) chain_error
      else raise chain_error

  -- the row of a fee that was paid
  abbrev pub fee_row : String → Transaction D → FeeCollection D
  fee_row id tx = record {
    transaction_id = id;
    tenant_id = nullable_uuid tx.tenant_id;
    fee_amount = tx.fee;
    asset = tx.asset;
    fee_bps = tx.fee_bps;
  }

  -- `collectFee`, which only logs its errors
  unfoldable pub collect_fee : String → Transaction D → String → OnChain D (Unit {0})
  unfolding transfer txdc_to_wei record_collection
  collect_fee id tx secret =
      if not (has_prefix eng.fee_wallet "0x") && not (has_prefix eng.fee_wallet "xdc")
      then pure tt
      else logged (do
        transfer eng.node secret eng.fee_wallet "" (txdc_to_wei tx.fee)
        on_world (record_collection (fee_row id tx)))

  abbrev pub sync_optional : Option Wallet → Action D (Unit {0})
  sync_optional none = pure tt
  sync_optional (some wl) = sync_balance wl

  -- what follows the wait for the confirmations
  unfoldable pub after_wait :
      String
      → Transaction D
      → Wallet
      → Option Wallet
      → String
      → String
      → Result (Unit {0})
      → OnChain D (Unit {0})
  unfolding sync_balance collect_fee
  after_wait id tx src dst secret hash (err e) = do
    logged (on_world (update_status eng.tenant id submitted hash))
    raise chain_error
  after_wait id tx src dst secret hash (ok _) = do
    logged (on_world (update_status eng.tenant id confirmed hash))
    on_world (sync_balance src)
    on_world (sync_optional dst)
    if gt tx.fee d.zero then collect_fee id tx secret else pure tt

  -- what follows the transfer: six confirmations
  unfoldable pub after_transfer :
      String
      → Transaction D
      → Wallet
      → Option Wallet
      → String
      → Result String
      → OnChain D (Unit {0})
  unfolding wait_confirmations after_wait
  after_transfer id tx src dst secret (err e) = do
    logged (on_world (update_status eng.tenant id failed ""))
    raise chain_error
  after_transfer id tx src dst secret (ok hash) = do
    waited ← outcome_of (wait_confirmations hash 6)
    after_wait id tx src dst secret hash waited

  -- the transfer, and what follows it
  unfoldable pub pay :
      String → Transaction D → Wallet → String × Option Wallet → String → OnChain D (Unit {0})
  unfolding transfer txdc_to_wei after_transfer
  pay id tx src dst secret = do
    reply ← outcome_of (transfer eng.node secret dst.0 "" (txdc_to_wei (net_amount tx)))
    after_transfer id tx src dst.1 secret reply

  -- from a claim that was won to the end
  unfoldable pub settle_claimed : String → Transaction D → OnChain D (Unit {0})
  unfolding destination decrypt_secret pay is_native_asset
  settle_claimed id tx =
      if not (is_native_asset tx.asset)
      then (do logged (on_world (update_status eng.tenant id failed "")); raise invalid_asset)
      else (do
        src ← on_world (eng.find_wallet tx.from_wallet)
        dst ← on_world (destination tx)
        secret ← on_world (decrypt_secret src.encrypted_secret)
        pay id tx src dst secret)

  -- how the claim ended: nothing is done where another worker has it
  unfoldable pub with_claim : String → Transaction D → Result (Unit {0}) → OnChain D (Unit {0})
  unfolding settle_claimed
  with_claim id tx (ok _) = settle_claimed id tx
  with_claim id tx (err concurrent_update) = pure tt
  with_claim id tx (err e) = raise e

  -- `SubmitTransfer`
  unfoldable pub submit_transfer : String → OnChain D (Unit {0})
  submit_transfer id = do
    tx ← on_world (get_by_id eng.tenant id)
    claim ← on_world (outcome_of (claim_for_submission id))
    with_claim id tx claim
