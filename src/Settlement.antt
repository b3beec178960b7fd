-- ===== src/Settlement.antt =====
-- internal/settlement/engine.go: a transaction of the queue is claimed, built, recorded and
-- submitted to Stellar, and what Horizon answers decides its status.
pub mod Outcome
pub mod Sends
use flowx.Prelude.{
  ℕ, zero, suc, ◌+◌, String, Bool, true, false, not, ◌&&◌, ◌||◌, Option, none, some, List, [], ◌∷◌,
  ◌++◌, eqb, ◌==◌, string_eq, nullable, if◌then◌else◌,
}
use flowx.Decimal.{Decimal, gt}
use flowx.Exec.{
  Error, concurrent_update, invalid_asset, unsupported_payout, missing_fee_wallet,
  submission_rejected, submission_ambiguous, chain_error, Result, ok, err, pure, raise, lift, gets,
  or_raise, logged, catch, ◌>>=◌, ◌>>◌,
}
use flowx.Domain.{Transaction, net_amount, Wallet, FeeCollection}
use flowx.Domain.Status.{TransactionStatus, pending, submitted, confirmed, failed}
use flowx.World.{
  World, Action, attempt, Payment, Envelope, BalanceRow, SubmitReply, accepted, refused,
  DetailReply, successful, unsuccessful, not_found, unavailable, draw,
}
use flowx.TxRepo.{get_by_id, claim_for_submission, update_status, nullable_uuid}
use flowx.Submission.{
  SubmitOutcome, outcome_confirmed, outcome_ambiguous, outcome_rejected, submit_once,
  transaction_detail, submit_loop, submit_with_retry, is_retryable, next_submit_reply,
  rest_submit_replies, next_detail, rest_details,
}
use flowx.Transfer.Address.{codes, strip, is_hex}

-- Whether `hex.DecodeString` accepts a text: hexadecimal digits, an even number of them.
unfoldable pub is_hex_text : List ℕ → Bool
unfolding is_hex
is_hex_text [] = true
is_hex_text (c ∷ []) = false
is_hex_text (c ∷ c' ∷ cs) = let rest = is_hex_text cs in is_hex c && is_hex c' && rest

-- One line of an account's balances: the code ("" for the native asset), the issuer and the text.
pub record AccountBalance : Type 0 where
  pub code : String
  pub issuer : String
  pub balance : String

-- What the engine is built from. `build` stands for txnbuild, the signer and the hash: from the
-- source's key, the payments, the secret and the passphrase, a signed envelope or an error.
pub record Engine (D : Type 0) : Type 0 where
  pub find_wallet : String → Action D Wallet
  pub load_account : String → Action D (List AccountBalance)
  pub build : String → List Payment → String → String → Option Envelope
  pub network : String
  pub issuer_of : String → Option String
  pub fee_wallet : String
  pub context_done : ℕ → Bool
  pub tenant : String

-- `WalletRepo.UpsertBalance`
unfoldable pub upsert_balance : BalanceRow → List BalanceRow → List BalanceRow
upsert_balance b [] = b ∷ []
upsert_balance b (r ∷ rs) =
    let rest = upsert_balance b rs in
    if r.wallet_id == b.wallet_id && r.asset_code == b.asset_code && r.issuer == b.issuer
    then b ∷ rs
    else r ∷ rest

module _ {D : Type 0} ⦃d : Decimal D⦄ where
  -- one turn of the loop over the account's balances; a text that is no number is skipped
  unfoldable pub sync_line : String → AccountBalance → Action D (Unit {0})
  unfolding upsert_balance
  sync_line wallet_id b = elim (d.parse b.balance) [
    | none ↦ pure tt
    | some amount ↦ logged (
        attempt (λ w. (
          ok tt,
          record w {
            balances =
                upsert_balance
                  (record {
                    wallet_id = wallet_id;
                    asset_code = if b.code == "" then "XLM" else b.code;
                    issuer = b.issuer;
                    balance = b.balance;
                  })
                  w.balances;
          },
        )))
  ]

  unfoldable pub sync_lines : String → List AccountBalance → Action D (Unit {0})
  unfolding sync_line
  sync_lines wallet_id [] = pure tt
  sync_lines wallet_id (b ∷ bs) = do sync_line wallet_id b; sync_lines wallet_id bs

  -- the INSERT of `FeeRepo.RecordCollection`
  unfoldable pub record_collection : FeeCollection D → Action D (Unit {0})
  record_collection c = attempt (λ w. (ok tt, record w { collections = w.collections ++ c ∷ [] }))

abbrev pub credit_asset : {D : Type 0} → String → Option String → Action D (String × Option String)
credit_asset code none = raise invalid_asset
credit_asset code (some i) = pure (code, some i)

module _ {D : Type 0} ⦃d : Decimal D⦄ (eng : Engine D) where
  -- `buildAsset`: the code and the issuer
  unfoldable pub build_asset : String → Action D (String × Option String)
  build_asset code =
      if code == "XLM" then pure ("XLM", none) else credit_asset code (eng.issuer_of code)

  -- `networkPassphrase`
  unfoldable pub network_passphrase : String
  network_passphrase =
      if eng.network == "mainnet" || eng.network == "public"
      then "Public Global Stellar Network ; September 2015"
      else "Test SDF Network ; September 2015"

  -- `syncWalletBalances`
  unfoldable pub sync_wallet_balances : Wallet → Action D (Unit {0})
  unfolding sync_lines
  sync_wallet_balances wl =
      logged (do lines ← eng.load_account wl.public_key; sync_lines wl.id lines)

  -- The operations: the net amount to the destination, and the fee to the platform's wallet.
  abbrev pub main_payment : Transaction D → Wallet → String × Option String → Payment
  main_payment tx dst asset = record {
    destination = dst.public_key;
    asset_code = asset.0;
    issuer = asset.1;
    amount = d.string_fixed7 (net_amount tx);
  }

  abbrev pub fee_payment : Transaction D → String × Option String → Payment
  fee_payment tx asset = record {
    destination = eng.fee_wallet;
    asset_code = asset.0;
    issuer = asset.1;
    amount = d.string_fixed7 tx.fee;
  }

  unfoldable pub payments :
      Transaction D → Wallet → String × Option String → Action D (List Payment)
  payments tx dst asset =
      if gt tx.fee d.zero
      then (if eng.fee_wallet == ""
          then raise missing_fee_wallet
          else pure (main_payment tx dst asset ∷ fee_payment tx asset ∷ []))
      else pure (main_payment tx dst asset ∷ [])

  -- From the claim to the signed envelope: the wallets and the envelope.
  unfoldable pub prepare : Transaction D → Action D (Wallet × Wallet × Envelope)
  prepare tx = do
    src ← eng.find_wallet tx.from_wallet
    account ← eng.load_account src.public_key
    dst ← eng.find_wallet tx.to_wallet
    asset ← build_asset tx.asset
    ops ← payments tx dst asset
    if is_hex_text (codes src.encrypted_secret) then pure tt else raise chain_error
    e ← or_raise (eng.build src.public_key ops src.encrypted_secret network_passphrase) chain_error
    pure (src, dst, e)

  -- `finalizeConfirmed`
  unfoldable pub finalize_confirmed : Transaction D → String → Wallet → Wallet → Action D (Unit {0})
  finalize_confirmed tx hash src dst = do
    logged (update_status eng.tenant tx.id confirmed hash)
    sync_wallet_balances src
    sync_wallet_balances dst
    if gt tx.fee d.zero
        then logged (
            record_collection (record {
              transaction_id = tx.id;
              tenant_id = nullable_uuid tx.tenant_id;
              fee_amount = tx.fee;
              asset = tx.asset;
              fee_bps = tx.fee_bps;
            }))
        else pure tt

  -- `tryResolveAmbiguous`
  unfoldable pub try_resolve_ambiguous : Transaction D → String → Wallet → Wallet → Action D Bool
  try_resolve_ambiguous tx hash src dst = do
    detail ← transaction_detail hash
    elim detail [
      | successful ↦ (do finalize_confirmed tx hash src dst; pure true)
      | unsuccessful ↦ (do logged (update_status eng.tenant tx.id failed hash); pure true)
      | not_found ↦ pure false
      | unavailable ↦ pure false
    ]

  -- the switch on the outcome
  unfoldable pub conclude :
      Transaction D → String → Wallet → Wallet → SubmitOutcome → Action D (Unit {0})
  conclude tx hash src dst outcome =
      if outcome.confirmed
      then finalize_confirmed tx hash src dst
      else if outcome.ambiguous
      then (do
        resolved ← try_resolve_ambiguous tx hash src dst
        if resolved then pure tt else raise submission_ambiguous)
      else (do logged (update_status eng.tenant tx.id failed hash); raise submission_rejected)

  -- From the envelope on: the hash is recorded before the first attempt.
  unfoldable pub settle : Transaction D → Wallet → Wallet → Envelope → Action D (Unit {0})
  settle tx src dst e = do
    logged (update_status eng.tenant tx.id submitted e.hash)
    outcome ← submit_with_retry eng.context_done e
    conclude tx e.hash src dst outcome

  -- What follows a claim that was won.
  unfoldable pub process : Transaction D → Action D (Unit {0})
  process tx =
      if not (tx.to_address == "")
      then (do logged (update_status eng.tenant tx.id failed ""); raise unsupported_payout)
      else (do (src, dst, e) ← prepare tx; settle tx src dst e)

  -- How the claim of `SubmitTransfer` ends: nothing is done where another worker has it.
  unfoldable pub after_claim : Transaction D → Result (Unit {0}) → Action D (Unit {0})
  after_claim tx (ok _) = process tx
  after_claim tx (err concurrent_update) = pure tt
  after_claim tx (err e) = raise e

  -- `SubmitTransfer`
  unfoldable pub submit_transfer : String → Action D (Unit {0})
  submit_transfer id = do
    tx ← get_by_id eng.tenant id
    claim ← (λ w. let (r, w') = claim_for_submission id w in (ok r, w'))
    after_claim tx claim
