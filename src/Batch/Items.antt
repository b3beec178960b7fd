-- ===== src/Batch/Items.antt =====
-- One transaction for each item of a batch.
use flowx.Prelude.{
  suc, ◌≡◌, ◌⊎◌, inl, inr, refl, sym, ap, ◌∙◌, ◌≤◌, ◌<◌, String, true, false, not, Option, none,
  some, List, [], ◌∷◌, arith, length, eqb, ltb, eq_iff, string_eq, ◌==◌, nullable,
}
use flowx.Decimal.{Decimal}
use flowx.Exec.{
  call_failed, Result, ok, err, pure, continue, batch_empty, batch_too_large, catch, ◌>>=◌,
}
use flowx.Exec.Keeps.{if-cases, Returns, pure-Returns, continue-Returns}
use flowx.Domain.{Transaction, ScreeningDecision}
use flowx.World.{World, Action}
use flowx.TxRepo.{create, insert}
use flowx.Compliance.Service.{Context}
use flowx.Transfer.Service.{
  Services, TransferRequest, check_destination, monthly_limit, find_destination, check_trustline,
  screen, persist, finish, new_transaction, initiate, initiate_batch_payout,
  initiate_batch_transfer,
}
use flowx.Transfer.Outcome.{IsOf}
use flowx.Fees.{calculate_fee}
use flowx.Batch.{max_items, Item, Batch, initiate_item, record_failed, initiate_items, create_batch}

-- The transaction of an item: its source, asset, amount and destination, and the batch.
abbrev pub ForItem : {D : Type 0} → String → String → Item D → Transaction D → Type 0
ForItem from_id batch_id i t =
    (t.from_wallet ≡ from_id)
    × (t.asset ≡ i.asset)
    × (t.amount ≡ i.amount)
    × (t.reference ≡ i.reference)
    × (t.to_address ≡ i.to_address)
    × ((t.to_wallet ≡ i.to_wallet_id) ⊎ ((i.to_address == "") ≡ false))
    × ((t.batch_id ≡ nullable batch_id) ⊎ (t.batch_id ≡ some batch_id))

-- One transaction for each item, in order.
abbrev pub Each : {D : Type 0} → String → String → List (Item D) → List (Transaction D) → Type 0
Each from_id batch_id [] [] = Unit
Each from_id batch_id [] (t ∷ ts) = ⊥
Each from_id batch_id (i ∷ is) [] = ⊥
Each from_id batch_id (i ∷ is) (t ∷ ts) = ForItem from_id batch_id i t × Each from_id batch_id is ts

-- What a call returns has the property, and its error is that of the database.
unfoldable pub Tried : {A S : Type 0} → (A → Type 0) → Result A × S → Type 0
Tried P (ok a, s) = P a
Tried P (err e, s) = e ≡ call_failed

module _ {D : Type 0} ⦃d : Decimal D⦄ (sv : Services D) (ctx : Context) where
  finish-Returns :
      (P : Transaction D → Type 0) (tx : Transaction D) (o : Option ScreeningDecision) (w : World D)
      → P tx
      → Returns P (finish sv ctx tx o w)
  unfolding finish
  finish-Returns P tx (some x) w h = continue-Returns P _ _ (λ _ s. pure-Returns P tx s h)
  finish-Returns P tx none w h = continue-Returns P _ _ (λ _ s. pure-Returns P tx s h)

  -- The transaction that is returned is the request's.
  initiate-IsOf : (q : TransferRequest D) (w : World D) → Returns (IsOf ctx q) (initiate sv ctx q w)
  unfolding initiate new_transaction
  initiate-IsOf q w =
      let P = IsOf ctx q in
      continue-Returns P (check_destination sv ctx q w) _ (λ _ s1.
        continue-Returns P (monthly_limit sv ctx s1) _ (λ limit s2.
          continue-Returns P (sv.find_wallet q.from_id s2) _ (λ src s3.
            continue-Returns P (find_destination sv ctx q.to_id s3) _ (λ dst s4.
              continue-Returns P (check_trustline sv ctx q src s4) _ (λ _ s5.
                continue-Returns P (screen sv ctx q src dst s5) _ (λ x s6.
                  continue-Returns P
                    (calculate_fee sv.get_schedule ctx.tenant q.asset q.amount true s6) _
                    (λ fee s7.
                      let t = new_transaction sv ctx q x.0 fee (sv.uuid s7.drawn) s7.now in
                      continue-Returns P
                        (persist sv ctx limit t (record s7 { drawn = suc s7.drawn })) _
                        (λ _ s8.
                          finish-Returns P t x.1 s8
                            (refl, refl, refl, refl, refl, refl, refl, refl)))))))))

  weaken :
      (P Q : Transaction D → Type 0) (p : Result (Transaction D) × World D)
      → Returns P p
      → ((t : Transaction D) → P t → Q t)
      → Returns Q p
  unfolding Returns
  weaken P Q (ok t, s) h k = k t h
  weaken P Q (err e, s) h k = tt

  of_item :
      (from_id batch_id : String) (i : Item D) (w : World D)
      → Returns (ForItem from_id batch_id i) (initiate_item sv ctx from_id batch_id i w)
  unfolding initiate_item initiate_batch_payout initiate_batch_transfer
  of_item from_id batch_id i w =
      if-cases (Returns (ForItem from_id batch_id i)) (not (i.to_address == "")) _ _ w
        (λ k.
          weaken _ _ _ (initiate-IsOf _ w)
            (λ t (a, b, c, e, f, g, h, _). (a, e, f, h, c, inr (ground (arith, k)), inl g)))
        (λ k. weaken _ _ _ (initiate-IsOf _ w) (λ t (a, b, c, e, f, g, h, _).
          (a, e, f, h, c ∙ sym (ground (arith, k, eq_iff i.to_address "")), inl b, inl g)))

  created :
      (t : Transaction D) (w : World D)
      → ((create ctx.tenant t w).0 ≡ ok tt) ⊎ ((create ctx.tenant t w).0 ≡ err call_failed)
  unfolding create insert
  created t w = ground arith

  after_create :
      (P : Transaction D → Type 0) (t : Transaction D) (p : Result (Unit {0}) × World D)
      → (p.0 ≡ ok tt) ⊎ (p.0 ≡ err call_failed)
      → P t
      → Tried P (continue p (λ _. pure t))
  unfolding Tried
  after_create P t (ok _, s) k h = h
  after_create P t (err e, s) (inl k) h = absurd (ground (arith, k))
  after_create P t (err e, s) (inr k) h = ground (arith, k)

  after_item :
      (from_id batch_id : String) (i : Item D) (p : Result (Transaction D) × World D)
      → Returns (ForItem from_id batch_id i) p
      → Tried
          (ForItem from_id batch_id i)
          (catch (λ _. p) (λ _. record_failed sv ctx from_id batch_id i) p.1)
  unfolding Returns Tried record_failed
  after_item from_id batch_id i (ok t, s) h = h
  after_item from_id batch_id i (err e, s) h =
      after_create (ForItem from_id batch_id i) _ _ (created _ _)
        (refl, refl, refl, refl, refl, inl refl, inr refl)

  -- What the loop returns, if it returns, is one transaction for each item.
  then_items :
      (from_id batch_id : String) (i : Item D) (is : List (Item D)) (t : Transaction D)
      (p : Result (List (Transaction D)) × World D)
      → ForItem from_id batch_id i t
      → Tried (Each from_id batch_id is) p
      → Tried (Each from_id batch_id (i ∷ is)) (continue p (λ txs. pure (t ∷ txs)))
  unfolding Tried
  then_items from_id batch_id i is t (ok txs, s) h k = (h, k)
  then_items from_id batch_id i is t (err e, s) h k = k

  first_item :
      (from_id batch_id : String) (i : Item D) (is : List (Item D))
      (p : Result (Transaction D) × World D)
      → Tried (ForItem from_id batch_id i) p
      → ((s : World D)
          → Tried (Each from_id batch_id is) (initiate_items sv ctx from_id batch_id is s))
      → Tried
          (Each from_id batch_id (i ∷ is))
          (continue p (λ t. initiate_items sv ctx from_id batch_id is >>= λ txs. pure (t ∷ txs)))
  unfolding Tried
  first_item from_id batch_id i is (ok t, s) h k =
      then_items from_id batch_id i is t (initiate_items sv ctx from_id batch_id is s) h (k s)
  first_item from_id batch_id i is (err e, s) h k = h

  no_items :
      (from_id batch_id : String) (w : World D)
      → Tried (Each {D = D} from_id batch_id []) (pure [] w)
  unfolding Tried
  no_items from_id batch_id w = tt

  initiate_items-Each :
      (from_id batch_id : String) (items : List (Item D)) (w : World D)
      → Tried (Each from_id batch_id items) (initiate_items sv ctx from_id batch_id items w)
  unfolding initiate_items
  initiate_items-Each from_id batch_id [] w = no_items from_id batch_id w
  initiate_items-Each from_id batch_id (i ∷ is) w =
      first_item from_id batch_id i is _
        (after_item from_id batch_id i (initiate_item sv ctx from_id batch_id i w)
          (of_item from_id batch_id i w))
        (initiate_items-Each from_id batch_id is)

  -- What `CreateBatch` may return: a transaction for each item, for one to a hundred items; or an
  -- error, for none or for more with nothing done, and otherwise the database's or that of the
  -- batch's INSERT.
  abbrev pub BatchOf :
      (Batch → Action D (Unit {0}))
      → String
      → List (Item D)
      → World D
      → Result (Batch × List (Transaction D)) × World D
      → Type 0
  BatchOf save from_id items w (ok (b, txs), s) =
      Each from_id b.id items txs
      × (b.total_count ≡ length items)
      × (0 < length items)
      × (length items ≤ 100)
  BatchOf save from_id items w (err e, s) =
      ((length items ≡ 0) × (e ≡ batch_empty) × (s ≡ w))
      ⊎ (((100 < length items) × (e ≡ batch_too_large) × (s ≡ w))
          ⊎ ((0 < length items)
              × (length items ≤ 100)
              × ((e ≡ call_failed) ⊎ ((b : Batch) × (u : World D) × ((save b u).0 ≡ err e)))))

  made :
      (save : Batch → Action D (Unit {0})) (from_id : String) (items : List (Item D)) (w : World D)
      (b : Batch) (p : Result (List (Transaction D)) × World D)
      → b.total_count ≡ length items
      → 0 < length items
      → length items ≤ 100
      → Tried (Each from_id b.id items) p
      → BatchOf save from_id items w (continue p (λ txs. pure (b, txs)))
  unfolding Tried
  made save from_id items w b (ok txs, s) e low high h = (h, e, low, high)
  made save from_id items w b (err x, s) e low high h = inr (inr (low, high, inl h))

  saved :
      (save : Batch → Action D (Unit {0})) (from_id : String) (items : List (Item D))
      (w u : World D) (b : Batch) (p : Result (Unit {0}) × World D)
      → save b u ≡ p
      → b.total_count ≡ length items
      → 0 < length items
      → length items ≤ 100
      → BatchOf save from_id items w
          (continue p (λ _. initiate_items sv ctx from_id b.id items >>= λ txs. pure (b, txs)))
  saved save from_id items w u b (ok _, s) k e low high =
      made save from_id items w b (initiate_items sv ctx from_id b.id items s) e low high
        (initiate_items-Each from_id b.id items s)
  saved save from_id items w u b (err x, s) k e low high =
      inr (inr (low, high, inr (b, u, ap (λ p. p.0) k)))

  -- `CreateBatch` returns, for one to a hundred items, a transaction for each item in order, with
  -- the item's asset, amount, reference and destination, in a batch that counts them; it refuses a
  -- batch of no item or of more than a hundred without changing anything; and any other error is
  -- the database's or that of the batch's INSERT.
  pub create_batch_items :
      (save : Batch → Action D (Unit {0})) (from_id : String) (items : List (Item D)) (w : World D)
      → BatchOf save from_id items w (create_batch sv ctx save from_id items w)
  unfolding create_batch
  create_batch_items save from_id items w =
      let P = BatchOf save from_id items w in
      if-cases P (eqb (length items) 0) _ _ w (λ e. inl (ground (arith, e), refl, refl))
        (λ e.
          if-cases P (ltb max_items (length items)) _ _ w
            (λ k. inr (inl (ground (arith, k), refl, refl)))
            (λ k.
              let b : Batch = record {
                id = sv.uuid w.drawn;
                total_count = length items;
                created_at = w.now;
              } in
              let u : World D = record w { drawn = suc w.drawn } in
              saved save from_id items w u b (save b u) refl refl (ground (arith, e))
                (ground (arith, k))))
