-- ===== src/Transfer/Gate.antt =====
-- What `initiate` of internal/transfer/service.go does to the rows and to the queue, on every path.
use flowx.Prelude.{
  suc, false, Bool-cases, sym, ◌⊎◌, ◌==◌, nullable, eq_iff, ◌≡◌, refl, ap, ◌∙◌, inl, inr, String,
  true, Option, none, some, [], ◌∷◌, ◌++◌, arith, string_eq, if◌then◌else◌,
}
use flowx.Prelude.Int.{ℤ, pos, pos_part, ltb_ℤ}
use flowx.Decimal.{Decimal}
use flowx.Exec.{gets, pure, logged, Result, ok, err, continue, catch, ◌>>=◌, ◌>>◌}
use flowx.Exec.Keeps.{if-holds, continue-holds}
use flowx.Calendar.{month_start, month_end}
use flowx.Domain.{Transaction, Wallet, Tenant, ScreeningRequest, ScreeningDecision}
use flowx.Domain.Status.{TransactionStatus, ScreeningStatus, clear, hold, blocked}
use flowx.World.{World, Action, draw, enqueue_transfer}
use flowx.TxRepo.{row_of}
use flowx.Fees.{calculate_fee}
use flowx.Compliance.Repo.{create_block}
use flowx.Compliance.Screener.{Screener}
use flowx.Compliance.Service.{
  Context, is_blocked, screener_error_decision, block_record, record_block, screen_transfer,
  record_hold,
}
use flowx.Transfer.Address.{is_native_asset}
use flowx.Transfer.Service.{
  Services, TransferRequest, check_destination, monthly_limit, find_destination, check_trustline,
  status_of, screening_request, screen_with, screen, new_transaction, persist, finish, initiate,
}
use flowx.Transfer.Reads.{
  footprint, Reads, OptionReads, map_screen, Cleared, attempt-holds, validate-footprint,
  record_block-footprint, record_hold-footprint, fee-Reads,
}
use flowx.Transfer.Outcome.{
  IsOf, IsScreening, own_tenant, unowned_tenant, ClearOnlyIf, Screened, AddsRow, Initiated, quiet,
  Persisted, create-Persisted, quota-Persisted,
}

module _ {D : Type 0} ⦃d : Decimal D⦄ (sv : Services D) (ctx : Context)
    (wallets : Reads sv.find_wallet) (tenants : OptionReads sv.find_tenant)
    (accounts : OptionReads sv.load_account) (balances : Reads sv.get_balances)
    (schedules : (o : Option String) → Reads (sv.get_schedule o))
    (screens : OptionReads (map_screen sv.screener)) where
  destination-footprint :
      (q : TransferRequest D) (w : World D)
      → footprint (check_destination sv ctx q w).1 ≡ footprint w
  unfolding check_destination
  destination-footprint q w = ground arith

  limit-footprint : (w : World D) → footprint (monthly_limit sv ctx w).1 ≡ footprint w
  unfolding monthly_limit
  limit-footprint w = go sv.find_tenant refl tenants
    where
      go :
          (o : Option (String → Action D Tenant))
          → sv.find_tenant ≡ o
          → OptionReads o
          → footprint (monthly_limit sv ctx w).1 ≡ footprint w
      go none q h = grind (arith, q)
      go (some find) q h = grind (arith, q, h)

  find-footprint :
      (id : String) (w : World D) → footprint (find_destination sv ctx id w).1 ≡ footprint w
  unfolding find_destination
  find-footprint id w = grind (arith, wallets)

  trustline-footprint :
      (q : TransferRequest D) (src : Wallet) (w : World D)
      → footprint (check_trustline sv ctx q src w).1 ≡ footprint w
  unfolding check_trustline
  trustline-footprint q src w =
      if-holds (λ p. footprint p.1 ≡ footprint w) (is_native_asset q.asset) _ _ w refl
        (validate-footprint sv.load_account sv.get_balances accounts balances q.from_id
          src.public_key q.asset w)

  screen_with-footprint :
      (o : Option (Screener D))
      → OptionReads (map_screen o)
      → (q : TransferRequest D) (src : Wallet) (dst : Option Wallet) (w : World D)
      → footprint (screen_with sv ctx o q src dst w).1 ≡ footprint w
  unfolding screen_with screen_transfer
  screen_with-footprint none h q src dst w = refl
  screen_with-footprint (some s) h q src dst w = grind (arith, h, record_block-footprint {D = D})

  status_of-Screened :
      (C : Type 0) (x : ScreeningDecision) (s : ScreeningStatus) (w : World D)
      → (s ≡ clear → C)
      → Screened C (status_of sv ctx x s w).0
  status_of-Screened C x blocked w c = tt
  status_of-Screened C x hold w c = inr (refl, (x, refl))
  status_of-Screened C x clear w c = inl (refl, (refl, c refl))

  record_block-ClearOnlyIf :
      (C : Type 0) (q : ScreeningRequest D) (x : ScreeningDecision) (w : World D)
      → (x.status ≡ clear → C)
      → ClearOnlyIf C (record_block sv.uuid ctx q x w).0
  unfolding record_block
  record_block-ClearOnlyIf C q x w c = go (
      create_block ctx.tenant (block_record sv.uuid (sv.uuid w.drawn) q x w.now)
        (record w { drawn = suc w.drawn }))
    where
      go :
          (p : Result (Unit {0}) × World D)
          → ClearOnlyIf C
              (catch
                (λ _. continue p (λ _. pure (record x { block_id = sv.uuid w.drawn })))
                (λ _. pure x)
                w).0
      go (ok _, w') = c
      go (err e, w') = c

  transfer-ClearOnlyIf :
      (P : ScreeningRequest D → Type 0) (s : Screener D) (q : ScreeningRequest D) (w : World D)
      → P q
      → ClearOnlyIf (Cleared P (some s)) (screen_transfer sv.uuid s ctx q w).0
  unfolding screen_transfer
  transfer-ClearOnlyIf P s q w is_p = go (s.screen q w) refl
    where
      go :
          (p : Result ScreeningDecision × World D)
          → s.screen q w ≡ p
          → ClearOnlyIf
              (Cleared P (some s))
              (continue
                (catch (λ _. p) (λ _. pure screener_error_decision) w)
                (λ x. if is_blocked x.status then record_block sv.uuid ctx q x else pure x)).0
      go (ok x, w') e =
          if-holds (λ p. ClearOnlyIf (Cleared P (some s)) p.0) (is_blocked x.status)
            (record_block sv.uuid ctx q x) (pure x) w'
            (record_block-ClearOnlyIf (Cleared P (some s)) q x w'
              (λ k. (q, is_p, (w, (x, (ap (λ p. p.0) e, k))))))
            (λ k. (q, is_p, (w, (x, (ap (λ p. p.0) e, k)))))
      go (err y, w') e = λ k. ground arith

  screen_with-Screened :
      (P : ScreeningRequest D → Type 0) (o : Option (Screener D)) (q : TransferRequest D)
      (src : Wallet) (dst : Option Wallet) (w : World D)
      → P (screening_request sv ctx q src dst)
      → Screened (Cleared P o) (screen_with sv ctx o q src dst w).0
  unfolding screen_with
  screen_with-Screened P none q src dst w is_p = inl (refl, (refl, tt))
  screen_with-Screened P (some s) q src dst w is_p =
      go (screen_transfer sv.uuid s ctx (screening_request sv ctx q src dst) w)
        (transfer-ClearOnlyIf P s (screening_request sv ctx q src dst) w is_p)
    where
      go :
          (p : Result ScreeningDecision × World D)
          → ClearOnlyIf (Cleared P (some s)) p.0
          → Screened (Cleared P (some s)) (continue p (λ x. status_of sv ctx x x.status)).0
      go (err e, w') h = tt
      go (ok x, w') h = status_of-Screened (Cleared P (some s)) x x.status w' h

  persist-Persisted :
      (limit : ℤ) (t : Transaction D) (w : World D)
      → t.tenant_id ≡ nullable ctx.tenant
      → Persisted t w (persist sv ctx limit t w)
  unfolding persist
  persist-Persisted limit t w own =
      if-holds (Persisted t w) (ltb_ℤ (pos 0) limit) _ _ w
        (quota-Persisted t ctx.tenant (month_start w.now) (month_end w.now) (pos_part limit) w
          (unowned_tenant ctx.tenant t own))
        (create-Persisted ctx.tenant t w (own_tenant ctx.tenant t own))

  finish-Initiated :
      (C : Type 0) (P : Transaction D → Type 0) (t : Transaction D) (o : Option ScreeningDecision)
      (w s : World D)
      → P t
      → Screened C (ok (t.status, o))
      → s.queue ≡ w.queue
      → AddsRow t w s
      → Initiated C P w (finish sv ctx t o s)
  unfolding finish
  finish-Initiated C P t none w s m (inl (e, (_, c))) q a =
      if-holds (λ p. Initiated C P w (continue p (λ _. pure t))) sv.has_queue
        (logged (enqueue_transfer t.id)) (pure tt) s
        (attempt-holds (λ p. Initiated C P w (ok t, p.1))
          (λ u. (ok tt, record u { queue = u.queue ++ t.id ∷ [] })) s (m, (a, inl (e, (c, inl q))))
          (m, (a, inl (e, (c, inr (ap (λ x. x ++ t.id ∷ []) q))))))
        (m, (a, inl (e, (c, inl q))))
  finish-Initiated C P t none w s m (inr (e, (x, k))) q a = ground (arith, k)
  finish-Initiated C P t (some x) w s m (inl (e, (k, c))) q a = ground (arith, k)
  finish-Initiated C P t (some x) w s m (inr (e, _)) q a =
      let same = record_hold-footprint sv.uuid ctx t x s in
      let a' : AddsRow t w (record_hold sv.uuid ctx t x s).1 =
        (a.0, a.1, ap (λ y. y.0) same ∙ a.2) in
      let q' = ap (λ y. y.1) same ∙ q in
      continue-holds (Initiated C P w) (record_hold sv.uuid ctx t x s) _
        (λ error. (q', inr (t, m, (e, a')))) (λ _. (m, (a', inr (e, q'))))

  -- From the INSERT on.
  complete :
      (C : Type 0) (P : Transaction D → Type 0) (limit : ℤ) (t : Transaction D)
      (o : Option ScreeningDecision) (w s : World D)
      → P t
      → t.tenant_id ≡ nullable ctx.tenant
      → Screened C (ok (t.status, o))
      → footprint s ≡ footprint w
      → Initiated C P w (continue (persist sv ctx limit t s) (λ _. finish sv ctx t o))
  unfolding Persisted
  complete C P limit t o w s m own k h =
      go (persist sv ctx limit t s) (persist-Persisted limit t s own)
    where
      go :
          (p : Result (Unit {0}) × World D)
          → Persisted t s p
          → Initiated C P w (continue p (λ _. finish sv ctx t o))
      go (err e, s') h' = (ap (λ x. x.1) (h' ∙ h), inl (ap (λ x. x.0) (h' ∙ h)))
      go (ok _, s') (q, (tenant, mine, a)) =
          finish-Initiated C P t o w s' m k (q ∙ ap (λ x. x.1) h)
            (tenant, mine, a ∙ ap (λ x. x.0 ++ row_of tenant t ∷ []) h)

  -- What follows the screening.
  abbrev after_screen :
      TransferRequest D
      → ℤ
      → TransactionStatus × Option ScreeningDecision
      → Action D (Transaction D)
  after_screen q limit x = do
    fee ← calculate_fee sv.get_schedule ctx.tenant q.asset q.amount true
    id ← draw sv.uuid
    now ← gets (λ w. w.now)
    let tx = new_transaction sv ctx q x.0 fee id now
    persist sv ctx limit tx
    finish sv ctx tx x.1

  after_screen-Initiated :
      (C : Type 0) (q : TransferRequest D) (limit : ℤ)
      (x : TransactionStatus × Option ScreeningDecision) (w s : World D)
      → Screened C (ok x)
      → footprint s ≡ footprint w
      → Initiated C (IsOf ctx q) w (after_screen q limit x s)
  unfolding new_transaction
  after_screen-Initiated C q limit x w s k h =
      let s' = (calculate_fee sv.get_schedule ctx.tenant q.asset q.amount true s).1 in
      let h' = fee-Reads sv.get_schedule schedules ctx.tenant q.asset q.amount true s ∙ h in
      quiet C (IsOf ctx q) w (calculate_fee sv.get_schedule ctx.tenant q.asset q.amount true s) _ h'
        (λ fee _ _.
          complete C (IsOf ctx q) limit (new_transaction sv ctx q x.0 fee (sv.uuid s'.drawn) s'.now)
            x.1 w (record s' { drawn = suc s'.drawn })
            (refl, refl, refl, refl, refl, refl, refl, refl) refl k h')

  abbrev Clears : TransferRequest D → Type 0
  Clears q = Cleared (IsScreening sv ctx q) sv.screener

  screen-Initiated :
      (q : TransferRequest D) (limit : ℤ) (src : Wallet) (dst : Option Wallet) (w s : World D)
      → IsScreening sv ctx q (screening_request sv ctx q src dst)
      → footprint s ≡ footprint w
      → Initiated
          (Clears q)
          (IsOf ctx q)
          w
          (continue (screen sv ctx q src dst s) (after_screen q limit))
  screen-Initiated q limit src dst w s is_p h =
      go (screen sv ctx q src dst s) (screen_with-footprint sv.screener screens q src dst s ∙ h)
        (screen_with-Screened (IsScreening sv ctx q) sv.screener q src dst s is_p)
    where
      go :
          (p : Result (TransactionStatus × Option ScreeningDecision) × World D)
          → footprint p.1 ≡ footprint w
          → Screened (Clears q) p.0
          → Initiated (Clears q) (IsOf ctx q) w (continue p (after_screen q limit))
      go (err e, s') h' k = (ap (λ x. x.1) h', inl (ap (λ x. x.0) h'))
      go (ok x, s') h' k = after_screen-Initiated (Clears q) q limit x w s' k h'

  -- What the wallets that were found make of the request that is screened.
  screened :
      (q : TransferRequest D) (src : Wallet) (dst : Option Wallet) (w w' : World D)
      → (sv.find_wallet q.from_id w).0 ≡ ok src
      → (find_destination sv ctx q.to_id w').0 ≡ ok dst
      → IsScreening sv ctx q (screening_request sv ctx q src dst)
  unfolding find_destination
  screened q src dst w w' e f =
      (refl, refl, refl, refl, refl, (src, w, e, refl), ends (Bool-cases (q.to_id == "")) f)
    where
      found :
          (dst : Option Wallet) (p : Result Wallet × World D)
          → p ≡ sv.find_wallet q.to_id w'
          → (continue p (λ x. pure (some x))).0 ≡ ok dst
          → ((q.to_id ≡ "") × ((screening_request sv ctx q src dst).to_public_key ≡ q.to_address))
            ⊎ ((x : Wallet) × (v : World D) × ((sv.find_wallet q.to_id v).0 ≡ ok x)
                × ((screening_request sv ctx q src dst).to_public_key ≡ x.public_key))
      found none (ok y, s) g k = absurd (ground (arith, k))
      found (some x) (ok y, s) g k = inr (x, w', sym (ap (λ p. p.0) g) ∙ ground (arith, k), refl)
      found dst (err y, s) g k = absurd (ground (arith, k))

      is_empty : (q.to_id == "") ≡ true → q.to_id ≡ ""
      is_empty k = ground (arith, k, eq_iff q.to_id "")

      absent_wallet : Result (Option Wallet)
      absent_wallet = ok none

      blank :
          (dst : Option Wallet)
          → absent_wallet ≡ ok dst
          → (screening_request sv ctx q src dst).to_public_key ≡ q.to_address
      blank none g = refl
      blank (some x) g = absurd (ground (arith, g))

      ends :
          ((q.to_id == "") ≡ true) ⊎ ((q.to_id == "") ≡ false)
          → (find_destination sv ctx q.to_id w').0 ≡ ok dst
          → ((q.to_id ≡ "") × ((screening_request sv ctx q src dst).to_public_key ≡ q.to_address))
            ⊎ ((x : Wallet) × (v : World D) × ((sv.find_wallet q.to_id v).0 ≡ ok x)
                × ((screening_request sv ctx q src dst).to_public_key ≡ x.public_key))
      ends (inl k) g = inl (is_empty k, blank dst (rw k at g))
      ends (inr k) g = found dst (sv.find_wallet q.to_id w') refl (rw k at g)

  -- `initiate`, on every path, given that the reads that it makes leave the rows and the queue as
  -- they are. If it raises an error, nothing is queued, and no row is left but one that is on hold.
  -- If it returns, exactly one row was added, the returned transaction's, under the tenant of the
  -- context and with the ends, the asset and the amount of the request; it is either pending, with a
  -- decision `clear` of the screener, where there is one, on the request's asset, amount and ends,
  -- and queued once at most, or on hold and not queued.
  pub initiate_gate :
      (q : TransferRequest D) (w : World D)
      → Initiated (Clears q) (IsOf ctx q) w (initiate sv ctx q w)
  unfolding initiate
  initiate_gate q w =
      quiet (Clears q) (IsOf ctx q) w (check_destination sv ctx q w) _ (destination-footprint q w)
        (λ _ _ h1.
          let s1 = (check_destination sv ctx q w).1 in
          quiet (Clears q) (IsOf ctx q) w (monthly_limit sv ctx s1) _ (limit-footprint s1 ∙ h1)
            (λ limit _ h2.
              let s2 = (monthly_limit sv ctx s1).1 in
              quiet (Clears q) (IsOf ctx q) w (sv.find_wallet q.from_id s2) _
                (wallets q.from_id s2 ∙ h2)
                (λ src e3 h3.
                  let s3 = (sv.find_wallet q.from_id s2).1 in
                  quiet (Clears q) (IsOf ctx q) w (find_destination sv ctx q.to_id s3) _
                    (find-footprint q.to_id s3 ∙ h3)
                    (λ dst e4 h4.
                      let s4 = (find_destination sv ctx q.to_id s3).1 in
                      quiet (Clears q) (IsOf ctx q) w (check_trustline sv ctx q src s4) _
                        (trustline-footprint q src s4 ∙ h4)
                        (λ _ _ h5.
                          screen-Initiated q limit src dst w (check_trustline sv ctx q src s4).1
                            (screened q src dst s2 s3 e3 e4) h5)))))
