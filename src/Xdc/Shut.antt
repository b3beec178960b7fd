-- ===== src/Xdc/Shut.antt =====
-- The calls of the XDC engine that leave a transaction that was claimed out of reach of other claims.
use mathlib.Core.Path.{subst}
use flowx.Prelude.{
  ◌≡◌, refl, sym, String, false, not, ◌&&◌, Option, none, some, ◌==◌, string_eq, if◌then◌else◌,
  arith, count,
}
use flowx.Prelude.Int.{ℤ}
use flowx.Decimal.{Decimal, gt}
use flowx.Exec.{
  Result, ok, err, continue, chain_error, or_raise, pure, outcome_of, logged, ◌>>=◌, ◌>>◌,
}
use flowx.Exec.Keeps.{if-holds, continue-holds}
use flowx.Domain.{Transaction, net_amount, Wallet, FeeCollection}
use flowx.Domain.Status.{TransactionStatus, pending, submitted, confirmed, failed, tx_status_eq}
use flowx.World.{World, Action}
use flowx.TxRepo.{get_by_id, claim_for_submission, update_status, claimable}
use flowx.TxRepo.Writes.{set_status, claim, open_claims, write, write-open_claims}
use flowx.Transfer.Address.{is_native_asset}
use flowx.Settlement.{record_collection}
use flowx.Xdc.{
  Evm, OnChain, LegacyTx, on_world, balance, wait_confirmations, send_transaction, transfer_from,
  transfer,
}
use flowx.Xdc.Engine.{
  XdcEngine, has_prefix, fee_row, txdc_to_wei, collect_fee, destination, decrypt_secret,
  sync_balance, sync_optional, after_wait, after_transfer, pay, settle_claimed, with_claim,
  submit_transfer,
}

-- A call that reads leaves the transactions as they are.
abbrev pub Reads : {D A : Type 0} → Action D A → Type 0
Reads {D} m = (w : World D) → (m w).1.rows ≡ w.rows

-- The reads of wallets and of the node.
pub record IsReading {D : Type 0} (eng : XdcEngine D) : Type 0 where
  pub find_wallet : (id : String) → Reads (eng.find_wallet id)
  pub nonce : (addr : String) → Reads (eng.node.pending_nonce_at addr)
  pub gas_price : Reads eng.node.suggest_gas_price
  pub balance : (addr : String) → Reads (eng.node.balance_at addr)

module _ {D : Type 0} ⦃d : Decimal D⦄ (id : String) where
  -- No claim of the transaction can be won.
  abbrev pub IsShut : Evm D → Type 0
  IsShut s = open_claims id s.world ≡ 0

  abbrev pub Keeps : {A : Type 0} → OnChain D A → Type 0
  Keeps m = (s : Evm D) → IsShut s → IsShut (m s).1

  pub read-Keeps : {A : Type 0} (m : Action D A) → Reads m → Keeps (on_world m)
  read-Keeps m h s o = subst (λ rs. count (claimable id) rs ≡ 0) (sym (h s.world)) o

  status-Keeps :
      (tenant j : String) (st : TransactionStatus) (hash : String)
      → (st == pending) ≡ false
      → Keeps (logged (on_world (update_status tenant j st hash)))
  unfolding write
  status-Keeps tenant j st hash h s o =
      write-open_claims id (set_status tenant j st hash) s.world (ground (arith, h)) o

  claim-Keeps : (j : String) → Keeps (on_world (outcome_of (claim_for_submission j)))
  unfolding write
  claim-Keeps j s o = write-open_claims id (claim j) s.world refl o

module _ {D : Type 0} ⦃d : Decimal D⦄ (eng : XdcEngine D) (reads : IsReading eng) where
  module _ (id : String) where
    abbrev pub Shut : {A : Type 0} → Result A × Evm D → Type 0
    Shut p = IsShut id p.1

    signed-Shut :
        (o : Option String) (tx : LegacyTx) (s : Evm D)
        → IsShut id s
        → Shut
            ((or_raise o chain_error >>= λ hash. send_transaction tx >>= λ _. λ t. (ok hash, t)) s)
    unfolding send_transaction
    signed-Shut none tx s o = o
    signed-Shut (some hash) tx s o = ground (arith, o)

    transfer_from-Keeps :
        (from private_key to_addr : String) (amount : ℤ)
        → Keeps id (transfer_from eng.node from private_key to_addr amount)
    unfolding transfer_from
    transfer_from-Keeps from private_key to_addr amount s o =
        let s1 = (on_world (eng.node.pending_nonce_at from) s).1 in
        let s2 = (on_world eng.node.suggest_gas_price s1).1 in
        let o1 = read-Keeps id (eng.node.pending_nonce_at from) (reads.nonce from) s o in
        let o2 = read-Keeps id eng.node.suggest_gas_price reads.gas_price s1 o1 in
        continue-holds Shut (on_world (eng.node.pending_nonce_at from) s) _ (λ e. o1)
          (λ nonce.
            continue-holds Shut (on_world eng.node.suggest_gas_price s1) _ (λ e. o2)
              (λ price. signed-Shut (eng.node.sign_tx _ private_key) _ s2 o2))

    known-Shut :
        (private_key to_addr : String) (amount : ℤ) (a : Option String) (s : Evm D)
        → IsShut id s
        → Shut (
            (or_raise a chain_error >>= λ from.
            transfer_from eng.node from private_key to_addr amount)
              s)
    known-Shut private_key to_addr amount none s o = o
    known-Shut private_key to_addr amount (some from) s o =
        transfer_from-Keeps from private_key to_addr amount s o

    transfer-Keeps :
        (private_key to_addr : String) (amount : ℤ)
        → Keeps id (transfer eng.node private_key to_addr "" amount)
    unfolding transfer
    transfer-Keeps private_key to_addr amount s o =
        known-Shut private_key to_addr amount (eng.node.address_of private_key) s o

    balance-Reads : (addr : String) → Reads (balance eng.node addr "")
    unfolding balance
    balance-Reads addr w = reads.balance _ w

    sync-Reads : (wl : Wallet) → Reads (sync_balance eng wl)
    unfolding sync_balance
    sync-Reads wl w = grind (arith, balance-Reads)

    optional-Reads : (o : Option Wallet) → Reads (sync_optional eng o)
    optional-Reads none w = refl
    optional-Reads (some wl) w = sync-Reads wl w

    record_collection-Reads : (c : FeeCollection D) → Reads (record_collection c)
    unfolding record_collection
    record_collection-Reads c w = ground arith

    recorded-Shut :
        (m : Action D (Unit {0})) (p : Result String × Evm D)
        → Reads m
        → Shut p
        → Shut (continue p (λ _. on_world m))
    recorded-Shut m (ok hash, s) h o = read-Keeps id m h s o
    recorded-Shut m (err e, s) h o = o

    collect_fee-Keeps :
        (j : String) (tx : Transaction D) (secret : String) → Keeps id (collect_fee eng j tx secret)
    unfolding collect_fee
    collect_fee-Keeps j tx secret s o =
        if-holds Shut
          (not (has_prefix eng.fee_wallet "0x") && not (has_prefix eng.fee_wallet "xdc")) (pure tt)
          (logged (
            transfer eng.node secret eng.fee_wallet "" (txdc_to_wei eng tx.fee)
            >> on_world (record_collection (fee_row eng j tx))))
          s o
          (recorded-Shut (record_collection (fee_row eng j tx)) _
            (record_collection-Reads (fee_row eng j tx))
            (transfer-Keeps secret eng.fee_wallet (txdc_to_wei eng tx.fee) s o))

    after_wait-Keeps :
        (j : String) (tx : Transaction D) (src : Wallet) (dst : Option Wallet)
        (secret hash : String) (r : Result (Unit {0}))
        → Keeps id (after_wait eng j tx src dst secret hash r)
    unfolding after_wait
    after_wait-Keeps j tx src dst secret hash (err e) s o =
        status-Keeps id eng.tenant j submitted hash refl s o
    after_wait-Keeps j tx src dst secret hash (ok _) s o =
        let s1 = (logged (on_world (update_status eng.tenant j confirmed hash)) s).1 in
        let s2 = (on_world (sync_balance eng src) s1).1 in
        let s3 = (on_world (sync_optional eng dst) s2).1 in
        let o1 = status-Keeps id eng.tenant j confirmed hash refl s o in
        let o2 = read-Keeps id (sync_balance eng src) (sync-Reads src) s1 o1 in
        let o3 = read-Keeps id (sync_optional eng dst) (optional-Reads dst) s2 o2 in
        continue-holds {A = Unit} Shut (on_world (sync_balance eng src) s1)
          (λ _. on_world (sync_optional eng dst) >>= λ _.
            if gt tx.fee d.zero then collect_fee eng j tx secret else pure tt)
          (λ e. o2)
          (λ _.
            continue-holds {A = Unit} Shut (on_world (sync_optional eng dst) s2)
              (λ _. if gt tx.fee d.zero then collect_fee eng j tx secret else pure tt) (λ e. o3)
              (λ _.
                if-holds Shut (gt tx.fee d.zero) (collect_fee eng j tx secret) (pure tt) s3
                  (collect_fee-Keeps j tx secret s3 o3) o3))

    after_transfer-Keeps :
        (j : String) (tx : Transaction D) (src : Wallet) (dst : Option Wallet) (secret : String)
        (r : Result String)
        → Keeps id (after_transfer eng j tx src dst secret r)
    unfolding after_transfer wait_confirmations
    after_transfer-Keeps j tx src dst secret (err e) s o =
        status-Keeps id eng.tenant j failed "" refl s o
    after_transfer-Keeps j tx src dst secret (ok hash) s o =
        let p = wait_confirmations hash 6 s in after_wait-Keeps j tx src dst secret hash p.0 p.1 o

    pay-Keeps :
        (j : String) (tx : Transaction D) (src : Wallet) (dst : String × Option Wallet)
        (secret : String)
        → Keeps id (pay eng j tx src dst secret)
    unfolding pay
    pay-Keeps j tx src dst secret s o =
        let p = transfer eng.node secret dst.0 "" (txdc_to_wei eng (net_amount tx)) s in
        after_transfer-Keeps j tx src dst.1 secret p.0 p.1
          (transfer-Keeps secret dst.0 (txdc_to_wei eng (net_amount tx)) s o)

    destination-Reads : (tx : Transaction D) → Reads (destination eng tx)
    unfolding destination
    destination-Reads tx w = grind (arith, reads.find_wallet)

    decrypt-Reads : (x : String) → Reads (decrypt_secret eng x)
    unfolding decrypt_secret
    decrypt-Reads x w = ground arith

    settle_claimed-Keeps : (j : String) (tx : Transaction D) → Keeps id (settle_claimed eng j tx)
    unfolding settle_claimed
    settle_claimed-Keeps j tx s o =
        let s1 = (on_world (eng.find_wallet tx.from_wallet) s).1 in
        let s2 = (on_world (destination eng tx) s1).1 in
        let o1 =
          read-Keeps id (eng.find_wallet tx.from_wallet) (reads.find_wallet tx.from_wallet) s o in
        let o2 = read-Keeps id (destination eng tx) (destination-Reads tx) s1 o1 in
        if-holds Shut (not (is_native_asset tx.asset)) _ _ s
          (status-Keeps id eng.tenant j failed "" refl s o)
          (continue-holds Shut (on_world (eng.find_wallet tx.from_wallet) s) _ (λ e. o1)
            (λ src.
              let o3 =
                read-Keeps id (decrypt_secret eng src.encrypted_secret)
                  (decrypt-Reads src.encrypted_secret) s2 o2 in
              continue-holds Shut (on_world (destination eng tx) s1) _ (λ e. o2)
                (λ dst.
                  continue-holds Shut (on_world (decrypt_secret eng src.encrypted_secret) s2) _
                    (λ e. o3)
                    (λ secret.
                      pay-Keeps j tx src dst secret
                        (on_world (decrypt_secret eng src.encrypted_secret) s2).1 o3))))

    pub with_claim-Keeps :
        (j : String) (tx : Transaction D) (r : Result (Unit {0})) → Keeps id (with_claim eng j tx r)
    unfolding with_claim
    with_claim-Keeps j tx (ok _) s o = settle_claimed-Keeps j tx s o
    with_claim-Keeps j tx (err e) s o = ground (arith, o)

    pub get_by_id-Reads : (j : String) → Reads {D = D} (get_by_id eng.tenant j)
    unfolding get_by_id
    get_by_id-Reads j w = ground arith

    pub submit_transfer-Keeps : (j : String) → Keeps id (submit_transfer eng j)
    unfolding submit_transfer
    submit_transfer-Keeps j s o =
        let s1 = (on_world (get_by_id eng.tenant j) s).1 in
        let o1 = read-Keeps id (get_by_id eng.tenant j) (get_by_id-Reads j) s o in
        continue-holds Shut (on_world (get_by_id eng.tenant j) s) _ (λ e. o1)
          (λ tx.
            with_claim-Keeps j tx (claim_for_submission j s1.world).0
              (on_world (outcome_of (claim_for_submission j)) s1).1 (claim-Keeps id j s1 o1))
