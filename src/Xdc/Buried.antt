-- ===== src/Xdc/Buried.antt =====
-- A call of the XDC engine that ends in success has read six confirmations of its payment.
use flowx.Prelude.{ℕ, ◌≤◌, ◌≡◌, ◌⊎◌, String, List, [], ◌∷◌, string_eq}
use flowx.Decimal.{Decimal}
use flowx.Exec.{Error, concurrent_update, Result, ok, err}
use flowx.Domain.{Transaction, net_amount}
use flowx.World.{World}
use flowx.TxRepo.{get_by_id, claim_for_submission}
use flowx.Xdc.{Evm, Poll, confirmations, wait_loop, transfer}
use flowx.Xdc.Engine.{XdcEngine, txdc_to_wei}

-- Some turn of a wait has read at least `n` confirmations.
abbrev pub Buried : ℕ → List Poll → Type 0
Buried n [] = ⊥
Buried n (p ∷ ps) = ((c : ℕ) × (confirmations p ≡ ok c) × (n ≤ c)) ⊎ Buried n ps

abbrev Waited : ℕ → List Poll → Type 0
Waited n ps = ((e : Error) × (wait_loop n ps ≡ err e)) ⊎ Buried n ps

module _ {D : Type 0} ⦃d : Decimal D⦄ (eng : XdcEngine D) where
  -- The hash is what a transfer of the net amount returned.
  abbrev pub IsPaid : Transaction D → String → Type 0
  IsPaid tx hash =
      (secret to_addr : String) × (u v : Evm D) × (transfer eng.node secret to_addr ""
          (txdc_to_wei eng (net_amount tx)) u
        ≡ (ok hash, v))

  -- The payment of a transaction has a hash for which a wait has read six confirmations.
  abbrev pub IsBuried : Transaction D → (String → List Poll) → Type 0
  IsBuried tx polls = (hash : String) × IsPaid tx hash × Buried 6 (polls hash)

  abbrev FailsOrBuried : Transaction D → (String → List Poll) → Result (Unit {0}) × Evm D → Type 0
  FailsOrBuried tx polls p = ((e : Error) × (p.0 ≡ err e)) ⊎ IsBuried tx polls

  -- What a call has seen: it failed, or lost the claim, or six confirmations of its payment.
  abbrev Confirmed : String → Evm D → Result (Unit {0}) × Evm D → Type 0
  Confirmed id s p =
      ((claim_for_submission id (get_by_id eng.tenant id s.world).1).0 ≡ err concurrent_update)
      ⊎ (((e : Error) × (p.0 ≡ err e))
          ⊎ ((tx : Transaction D) × ((get_by_id eng.tenant id s.world).0 ≡ ok tx)
              × IsBuried tx s.polls))
