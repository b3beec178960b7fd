-- ===== src/Xdc/Sends.antt =====
-- What a call of the XDC engine broadcasts: nothing without the claim, then the payment, and after
-- its confirmation the fee.
use mathlib.Core.Path.{subst}
use flowx.Prelude.{
  ◌≡◌, refl, ap, ◌⊎◌, inl, inr, String, not, ◌&&◌, Option, none, some, List, ◌∷◌, ◌==◌, string_eq,
  arith,
}
use flowx.Prelude.Int.{ℤ}
use flowx.Decimal.{Decimal, gt}
use flowx.Exec.{
  Error, Result, ok, err, continue, chain_error, or_raise, pure, outcome_of, logged, ◌>>=◌, ◌>>◌,
}
use flowx.Exec.Keeps.{if-holds, continue-holds}
use flowx.Domain.{Transaction, net_amount, Wallet}
use flowx.World.{World, Action}
use flowx.TxRepo.{get_by_id, claim_for_submission}
use flowx.Xdc.{
  Evm, LegacyTx, Node, on_world, normalize_address, wait_confirmations, send_transaction,
  transfer_from, transfer,
}
use flowx.Transfer.Address.{is_native_asset}
use flowx.Settlement.{record_collection}
use flowx.Xdc.Engine.{
  XdcEngine, has_prefix, fee_row, txdc_to_wei, collect_fee, destination, after_wait, sync_balance,
  decrypt_secret, after_transfer, pay, settle_claimed, with_claim, submit_transfer,
}

module _ {D : Type 0} (node : Node D) (to_addr : String) (amount : ℤ) where
  -- The broadcast carries the amount to the address.
  abbrev pub Carries : LegacyTx → Type 0
  Carries tx = (tx.value ≡ amount) × (tx.to ≡ node.hex_to_address (normalize_address to_addr))

  -- Nothing was broadcast, with an error, or the one transaction.
  abbrev pub AtMostOne : {A : Type 0} → List LegacyTx → Result A × Evm D → Type 0
  AtMostOne before p =
      ((p.1.broadcasts ≡ before) × ((e : Error) × (p.0 ≡ err e)))
      ⊎ ((tx : LegacyTx) × Carries tx × (p.1.broadcasts ≡ tx ∷ before))

  signed-AtMostOne :
      (o : Option String) (tx : LegacyTx) (s : Evm D)
      → Carries tx
      → AtMostOne s.broadcasts
          ((or_raise o chain_error >>= λ hash. send_transaction tx >>= λ _. λ t. (ok hash, t)) s)
  unfolding send_transaction
  signed-AtMostOne none tx s c = inl (refl, (_, refl))
  signed-AtMostOne (some hash) tx s c = inr (tx, c, ground arith)

  transfer_from-AtMostOne :
      (from private_key : String) (s : Evm D)
      → AtMostOne s.broadcasts (transfer_from node from private_key to_addr amount s)
  unfolding transfer_from
  transfer_from-AtMostOne from private_key s =
      continue-holds (AtMostOne s.broadcasts) (on_world (node.pending_nonce_at from) s) _
        (λ e. inl (refl, (_, refl)))
        (λ nonce.
          continue-holds (AtMostOne s.broadcasts) (on_world node.suggest_gas_price _) _
            (λ e. inl (refl, (_, refl)))
            (λ price. signed-AtMostOne (node.sign_tx _ private_key) _ _ (refl, refl)))

  pub transfer-AtMostOne :
      (private_key contract : String) (s : Evm D)
      → AtMostOne s.broadcasts (transfer node private_key to_addr contract amount s)
  unfolding transfer
  transfer-AtMostOne private_key contract s =
      if-holds (AtMostOne s.broadcasts) (not (contract == "")) _ _ s (inl (refl, (_, refl)))
        (known (node.address_of private_key))
    where
      known :
          (o : Option String)
          → AtMostOne s.broadcasts (
              (or_raise o chain_error >>= λ from.
              transfer_from node from private_key to_addr amount)
                s)
      known none = inl (refl, (_, refl))
      known (some from) = transfer_from-AtMostOne from private_key s

module _ {D : Type 0} ⦃d : Decimal D⦄ (eng : XdcEngine D) where
  -- Nothing was broadcast, or the fee, and that after a success.
  abbrev pub FeeAtMost : Transaction D → List LegacyTx → Result (Unit {0}) × Evm D → Type 0
  FeeAtMost tx before p =
      (p.1.broadcasts ≡ before)
      ⊎ ((fee : LegacyTx) × Carries eng.node eng.fee_wallet (txdc_to_wei eng tx.fee) fee
          × (p.1.broadcasts ≡ fee ∷ before)
          × (p.0 ≡ ok tt))

  -- the record of the fee broadcasts nothing
  recorded-FeeAtMost :
      (tx : Transaction D) (m : Action D (Unit {0})) (before : List LegacyTx)
      (p : Result String × Evm D)
      → AtMostOne eng.node eng.fee_wallet (txdc_to_wei eng tx.fee) before p
      → FeeAtMost tx before (ok tt, (continue p (λ _. on_world m)).1)
  recorded-FeeAtMost tx m before (ok hash, s) (inl (h, _)) = inl h
  recorded-FeeAtMost tx m before (ok hash, s) (inr (fee, c, h)) = inr (fee, c, h, refl)
  recorded-FeeAtMost tx m before (err e, s) (inl (h, _)) = inl h
  recorded-FeeAtMost tx m before (err e, s) (inr (fee, c, h)) = inr (fee, c, h, refl)

  collect_fee-FeeAtMost :
      (id : String) (tx : Transaction D) (secret : String) (s : Evm D)
      → FeeAtMost tx s.broadcasts (collect_fee eng id tx secret s)
  unfolding collect_fee
  collect_fee-FeeAtMost id tx secret s =
      if-holds (FeeAtMost tx s.broadcasts)
        (not (has_prefix eng.fee_wallet "0x") && not (has_prefix eng.fee_wallet "xdc")) (pure tt)
        (logged (
          transfer eng.node secret eng.fee_wallet "" (txdc_to_wei eng tx.fee)
          >> on_world (record_collection (fee_row eng id tx))))
        s (inl refl)
        (recorded-FeeAtMost tx (record_collection (fee_row eng id tx)) s.broadcasts
          (transfer eng.node secret eng.fee_wallet "" (txdc_to_wei eng tx.fee) s)
          (transfer-AtMostOne eng.node eng.fee_wallet (txdc_to_wei eng tx.fee) secret "" s))

  after_wait-FeeAtMost :
      (id : String) (tx : Transaction D) (src : Wallet) (dst : Option Wallet) (secret hash : String)
      (r : Result (Unit {0})) (s : Evm D)
      → FeeAtMost tx s.broadcasts (after_wait eng id tx src dst secret hash r s)
  unfolding after_wait sync_balance
  after_wait-FeeAtMost id tx src dst secret hash (err e) s = inl refl
  after_wait-FeeAtMost id tx src none secret hash (ok _) s =
      if-holds (FeeAtMost tx s.broadcasts) (gt tx.fee d.zero) _ _ _
        (collect_fee-FeeAtMost id tx secret _) (inl refl)
  after_wait-FeeAtMost id tx src (some dst) secret hash (ok _) s =
      if-holds (FeeAtMost tx s.broadcasts) (gt tx.fee d.zero) _ _ _
        (collect_fee-FeeAtMost id tx secret _) (inl refl)

  after_transfer-FeeAtMost :
      (id : String) (tx : Transaction D) (src : Wallet) (dst : Option Wallet) (secret : String)
      (r : Result String) (s : Evm D)
      → FeeAtMost tx s.broadcasts (after_transfer eng id tx src dst secret r s)
  unfolding after_transfer wait_confirmations
  after_transfer-FeeAtMost id tx src dst secret (err e) s = inl refl
  after_transfer-FeeAtMost id tx src dst secret (ok hash) s =
      after_wait-FeeAtMost id tx src dst secret hash _ _

  -- Nothing was broadcast, or the payment of the net amount to the destination, and then at most
  -- the fee, after a success.
  abbrev pub PaysOnce : Transaction D → List LegacyTx → Result (Unit {0}) × Evm D → Type 0
  PaysOnce tx before p =
      (p.1.broadcasts ≡ before)
      ⊎ ((main : LegacyTx) × (w : World D) × (dst : String × Option Wallet) × ((destination eng tx
              w).0
            ≡ ok dst)
          × Carries eng.node dst.0 (txdc_to_wei eng (net_amount tx)) main
          × FeeAtMost tx (main ∷ before) p)

  paid :
      (id : String) (tx : Transaction D) (src : Wallet) (dst : String × Option Wallet)
      (secret : String) (before : List LegacyTx) (w : World D) (p : Result String × Evm D)
      → (destination eng tx w).0 ≡ ok dst
      → AtMostOne eng.node dst.0 (txdc_to_wei eng (net_amount tx)) before p
      → PaysOnce tx before (after_transfer eng id tx src dst.1 secret p.0 p.1)
  unfolding after_transfer
  paid id tx src dst secret before w (ok hash, s) e (inl (h, (x, k))) = absurd (ground (arith, k))
  paid id tx src dst secret before w (err y, s) e (inl (h, (x, k))) = inl h
  paid id tx src dst secret before w p e (inr (main, c, h)) = inr (
    main,
    w,
    dst,
    e,
    c,
    subst (λ b. FeeAtMost tx b (after_transfer eng id tx src dst.1 secret p.0 p.1)) h
        (after_transfer-FeeAtMost id tx src dst.1 secret p.0 p.1),
  )

  pay-PaysOnce :
      (id : String) (tx : Transaction D) (src : Wallet) (dst : String × Option Wallet)
      (secret : String) (w : World D) (s : Evm D)
      → (destination eng tx w).0 ≡ ok dst
      → PaysOnce tx s.broadcasts (pay eng id tx src dst secret s)
  unfolding pay
  pay-PaysOnce id tx src dst secret w s e =
      paid id tx src dst secret s.broadcasts w _ e
        (transfer-AtMostOne eng.node dst.0 (txdc_to_wei eng (net_amount tx)) secret "" s)

  with_destination :
      (id : String) (tx : Transaction D) (src : Wallet) (s : Evm D)
      (p : Result (String × Option Wallet) × World D)
      → destination eng tx s.world ≡ p
      → PaysOnce tx s.broadcasts (
          continue
            (p.0, record s { world = p.1 })
            (λ dst. on_world (decrypt_secret eng src.encrypted_secret) >>= λ secret.
              pay eng id tx src dst secret))
  with_destination id tx src s (err x, w) e = inl refl
  with_destination id tx src s (ok dst, w) e =
      continue-holds (PaysOnce tx s.broadcasts)
        (on_world (decrypt_secret eng src.encrypted_secret) (record s { world = w })) _
        (λ x. inl refl) (λ secret. pay-PaysOnce id tx src dst secret s.world _ (ap (λ p. p.0) e))

  settle_claimed-PaysOnce :
      (id : String) (tx : Transaction D) (s : Evm D)
      → PaysOnce tx s.broadcasts (settle_claimed eng id tx s)
  unfolding settle_claimed
  settle_claimed-PaysOnce id tx s =
      if-holds (PaysOnce tx s.broadcasts) (not (is_native_asset tx.asset)) _ _ s (inl refl) (
        continue-holds (PaysOnce tx s.broadcasts) (on_world (eng.find_wallet tx.from_wallet) s) _
          (λ e. inl refl) (λ src. with_destination id tx src _ _ refl))

  -- What a call broadcasts: nothing, or it has won the claim of the transaction that it read.
  abbrev pub Settles : String → Evm D → Result (Unit {0}) × Evm D → Type 0
  Settles id s p =
      (p.1.broadcasts ≡ s.broadcasts)
      ⊎ ((tx : Transaction D) × ((get_by_id eng.tenant id s.world).0 ≡ ok tx)
          × ((claim_for_submission id (get_by_id eng.tenant id s.world).1).0 ≡ ok tt)
          × PaysOnce tx s.broadcasts p)

  claimed :
      (id : String) (s : Evm D) (tx : Transaction D) (w : World D) (c : Result (Unit {0}) × World D)
      → get_by_id eng.tenant id s.world ≡ (ok tx, w)
      → claim_for_submission id w ≡ c
      → Settles id s (with_claim eng id tx c.0 (record s { world = c.1 }))
  unfolding with_claim
  claimed id s tx w (ok _, w') e q =
      inr (tx, ap (λ p. p.0) e, rw e (ap (λ p. p.0) q), settle_claimed-PaysOnce id tx _)
  claimed id s tx w (err x, w') e q = inl (ground arith)

  read :
      (id : String) (s : Evm D) (p : Result (Transaction D) × World D)
      → get_by_id eng.tenant id s.world ≡ p
      → Settles id s (
          continue
            (p.0, record s { world = p.1 })
            (λ tx. on_world (outcome_of (claim_for_submission id)) >>= with_claim eng id tx))
  read id s (err x, w) e = inl refl
  read id s (ok tx, w) e = claimed id s tx w _ e refl

  -- A call of the engine broadcasts nothing, or it has won the claim of the transaction that it
  -- read and broadcasts the net amount to the transaction's destination, and then at most the fee
  -- to the platform's wallet, that only where the call ends in success.
  pub submit_transfer-Settles : (id : String) (s : Evm D) → Settles id s (submit_transfer eng id s)
  unfolding submit_transfer
  submit_transfer-Settles id s = read id s _ refl
