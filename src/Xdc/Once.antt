-- ===== src/Xdc/Once.antt =====
-- Over any calls of the XDC engine, a transaction is paid at most once.
use flowx.Prelude.{◌≡◌, ◌≢◌, refl, ◌⊎◌, inl, inr, String, List, [], ◌∷◌, string_eq}
use flowx.Decimal.{Decimal}
use flowx.Exec.{Error, Result, ok, err, continue, outcome_of, ◌>>=◌}
use flowx.Domain.{Transaction}
use flowx.Domain.Status.{tx_status_eq}
use flowx.World.{World}
use flowx.TxRepo.{get_by_id, claim_for_submission}
use flowx.TxRepo.Writes.{claim-open_claims, no_claim}
use flowx.Xdc.{Evm, on_world}
use flowx.Xdc.Engine.{XdcEngine, with_claim, submit_transfer}
use flowx.Xdc.Sends.{submit_transfer-Settles}
use flowx.Xdc.Shut.{
  IsReading, IsShut, read-Keeps, get_by_id-Reads, with_claim-Keeps, submit_transfer-Keeps,
}

module _ {D : Type 0} ⦃d : Decimal D⦄ (eng : XdcEngine D) where
  -- Calls for any transactions, one after the other.
  unfoldable pub submit_all : List String → Evm D → Evm D
  submit_all [] s = s
  submit_all (id ∷ ids) s = submit_all ids (submit_transfer eng id s).1

module _ {D : Type 0} ⦃d : Decimal D⦄ (eng : XdcEngine D) (reads : IsReading eng) where
  module _ (id : String) where
    abbrev Shut : {A : Type 0} → Result A × Evm D → Type 0
    Shut p = IsShut id p.1

    -- A claim that was won shuts the transaction.
    won_shuts :
        (s : Evm D) (p : Result (Transaction D) × World D)
        → get_by_id eng.tenant id s.world ≡ p
        → (claim_for_submission id p.1).0 ≡ ok tt
        → Shut (
            continue
              (p.0, record s { world = p.1 })
              (λ tx. on_world (outcome_of (claim_for_submission id)) >>= with_claim eng id tx))
          ⊎ ((e : Error) × (p.0 ≡ err e))
    won_shuts s (ok tx, w) e h = inl (
        with_claim-Keeps eng reads id id tx (claim_for_submission id w).0
          (record s { world = (claim_for_submission id w).1 }) (claim-open_claims id w h))
    won_shuts s (err x, w) e h = inr (x, refl)

    -- A transaction that is shut is not paid.
    shut_unpaid : (s : Evm D) → IsShut id s → (submit_transfer eng id s).1.broadcasts ≡ s.broadcasts
    shut_unpaid s o = elim (submit_transfer-Settles eng id s) [
      | inl h ↦ h
      | inr (tx, e, won, h) ↦ absurd (
          no_claim id (get_by_id eng.tenant id s.world).1
            (read-Keeps id (get_by_id eng.tenant id) (get_by_id-Reads eng reads id id) s o) won)
    ]

    -- A call that broadcasts shuts the transaction.
    paid_shuts :
        (s : Evm D)
        → (submit_transfer eng id s).1.broadcasts ≢ s.broadcasts
        → IsShut id (submit_transfer eng id s).1
    unfolding submit_transfer
    paid_shuts s h = elim (submit_transfer-Settles eng id s) [
      | inl k ↦ absurd (h k)
      | inr (tx, e, won, k) ↦ elim (won_shuts s (get_by_id eng.tenant id s.world) refl won) [
        | inl o ↦ o
        | inr (x, q) ↦ cc
      ]
    ]

  submit_all-IsShut :
      (id : String) (ids : List String) (s : Evm D) → IsShut id s → IsShut id (submit_all eng ids s)
  unfolding submit_all
  submit_all-IsShut id [] s o = o
  submit_all-IsShut id (j ∷ ids) s o =
      submit_all-IsShut id ids (submit_transfer eng j s).1
        (submit_transfer-Keeps eng reads id j s o)

  -- Once a call has broadcast anything for a transaction, no later call for it broadcasts anything,
  -- whatever calls for whatever transactions come between and whatever the node answers, where the
  -- reads of wallets and of the node leave the transactions as they are.
  pub paid_once :
      (id : String) (ids : List String) (s : Evm D)
      → (submit_transfer eng id s).1.broadcasts ≢ s.broadcasts
      → let s' = submit_all eng ids (submit_transfer eng id s).1 in
        (submit_transfer eng id s').1.broadcasts ≡ s'.broadcasts
  paid_once id ids s h =
      shut_unpaid id (submit_all eng ids (submit_transfer eng id s).1)
        (submit_all-IsShut id ids (submit_transfer eng id s).1 (paid_shuts id s h))
