-- ===== src/Reconcile/Holds.antt =====
-- What `RecoverPending` leaves alone, and what stops it.
use flowx.Prelude.{
  ℕ, suc, ◌<◌, ◌≡◌, refl, ◌∙◌, ◌⊎◌, inl, inr, String, Bool, true, false, ◌&&◌, Option, none, List,
  [], ◌∷◌, arith, ltb, ◌==◌, string_eq, is_none, count, count-append, eq_iff, All,
}
use flowx.Decimal.{Decimal}
use flowx.Exec.{Result, ok, err, call_failed, pure, logged, ◌>>◌}
use flowx.Exec.Keeps.{if-holds, continue-holds}
use flowx.Domain.{Transaction}
use flowx.Domain.Status.{
  TransactionStatus, pending, submitted, failed, compliance_hold, tx_status_eq,
}
use flowx.Table.{select_where, update_where}
use flowx.World.{TxRow, World, enqueue_transfer}
use flowx.TxRepo.{
  exec_update, must_affect, reset_stuck_submitted_to_pending, increment_requeue_count,
  update_reconciliation_status, stuck_submitted,
}
use flowx.Reconcile.Pending.{stuck_threshold}
use flowx.Reconcile.Recover.{
  max_requeues, stuck_row, scan_stuck, scan_all, get_stuck_pending_txes, reset_claimed,
  requeue_or_fail, recover_one, recover_all, recover_pending,
}

-- The rows of a transaction, and how often it is queued.
abbrev pub view : {D : Type 0} → String → World D → List (TxRow D) × ℕ
view id w = (select_where (λ r. r.id == id) w.rows, count (λ x. x == id) w.queue)

module _ {A : Type 0} where
  select-update :
      (q p : A → Bool) (f : A → A) (rs : List A)
      → ((r : A) → p r ≡ true → (q r ≡ false) × (q (f r) ≡ false))
      → select_where q (update_where p f rs) ≡ select_where q rs
  unfolding select_where update_where
  select-update q p f [] h = refl
  select-update q p f (r ∷ rs) h = ground (arith, h r, select-update q p f rs h)

  count-select :
      (q p : A → Bool) (rs : List A) → count q (select_where p rs) ≡ count (λ r. p r && q r) rs
  unfolding select_where
  count-select q p [] = refl
  count-select q p (r ∷ rs) = ground (arith, count-select q p rs)

module _ {D : Type 0} (id : String) where
  exec_update-view :
      (p : TxRow D → Bool) (f : TxRow D → TxRow D) (w : World D)
      → ((r : TxRow D) → p r ≡ true → ((r.id == id) ≡ false) × (((f r).id == id) ≡ false))
      → view id (exec_update p f w).1 ≡ view id w
  unfolding exec_update
  exec_update-view p f w h = ground (arith, select-update (λ r. r.id == id) p f w.rows h)

  reset-view :
      (j : String) (age : ℕ) (w : World D)
      → (j == id) ≡ false
      → view id (reset_stuck_submitted_to_pending j age w).1 ≡ view id w
  unfolding reset_stuck_submitted_to_pending must_affect
  reset-view j age w h = ground (
    arith,
    exec_update-view (stuck_submitted j age w.now) (λ r. record r { status = pending }) w
        (λ r p. ground (arith, eq_iff r.id id, eq_iff r.id j, eq_iff j id)),
  )

  increment-view :
      (j : String) (w : World D)
      → (j == id) ≡ false
      → view id (increment_requeue_count j w).1 ≡ view id w
  unfolding increment_requeue_count
  increment-view j w h = ground (
    arith,
    exec_update-view (λ r. r.id == j) (λ r. record r { requeue_count = suc r.requeue_count }) w
        (λ r p. ground (arith, eq_iff r.id id, eq_iff r.id j, eq_iff j id)),
  )

  status-view :
      (j : String) (s : TransactionStatus) (w : World D)
      → (j == id) ≡ false
      → view id (update_reconciliation_status j s w).1 ≡ view id w
  unfolding update_reconciliation_status
  status-view j s w h = ground (
    arith,
    exec_update-view (λ r. r.id == j) (λ r. record r { status = s }) w
        (λ r p. ground (arith, eq_iff r.id id, eq_iff r.id j, eq_iff j id)),
  )

  enqueue-view :
      (j : String) (w : World D) → (j == id) ≡ false → view id (enqueue_transfer j w).1 ≡ view id w
  enqueue-view j w h = ground (arith, count-append (λ x. x == id) w.queue (j ∷ []))

  requeue-view :
      (tx : Transaction D) (w : World D)
      → (tx.id == id) ≡ false
      → view id (requeue_or_fail tx w).1 ≡ view id w
  unfolding requeue_or_fail
  requeue-view tx w h =
      continue-holds (λ p. view id p.1 ≡ view id w) (increment_requeue_count tx.id w) _
        (λ e. increment-view tx.id w h)
        (λ n.
          let s = (increment_requeue_count tx.id w).1 in
          if-holds (λ p. view id p.1 ≡ view id w) (ltb max_requeues n)
            (logged (update_reconciliation_status tx.id failed)) (enqueue_transfer tx.id) s
            (status-view tx.id failed s h ∙ increment-view tx.id w h)
            (enqueue-view tx.id s h ∙ increment-view tx.id w h))

  reset_claimed-view :
      (tx : Transaction D) (w : World D)
      → (tx.id == id) ≡ false
      → view id (reset_claimed tx w).1 ≡ view id w
  unfolding reset_claimed
  reset_claimed-view tx w h =
      if-holds (λ p. view id p.1 ≡ view id w) (tx.status == submitted) _ _ w
        (reset-view tx.id stuck_threshold w h) refl

  recover_one-view :
      (tx : Transaction D) (w : World D)
      → ((tx.id == id) ≡ false) ⊎ (tx.status ≡ compliance_hold)
      → view id (recover_one tx w).1 ≡ view id w
  unfolding recover_one
  recover_one-view tx w (inr held) = grind (arith, held)
  recover_one-view tx w (inl h) =
      if-holds (λ p. view id p.1 ≡ view id w) (tx.status == compliance_hold) (pure tt)
        (logged (reset_claimed tx >> requeue_or_fail tx)) w refl
        (continue-holds (λ p. view id p.1 ≡ view id w) (reset_claimed tx w)
          (λ _. requeue_or_fail tx) (λ e. reset_claimed-view tx w h)
          (λ _. requeue-view tx (reset_claimed tx w).1 h ∙ reset_claimed-view tx w h))

  -- Recovery of any list of transactions leaves the rows of a transaction and its tasks in the
  -- queue as they are, where the list has it on hold only or not at all.
  pub recover_all_holds :
      (txs : List (Transaction D)) (w : World D)
      → All (λ tx. ((tx.id == id) ≡ false) ⊎ (tx.status ≡ compliance_hold)) txs
      → view id (recover_all txs w).1 ≡ view id w
  unfolding recover_all
  recover_all_holds [] w h = refl
  recover_all_holds (tx ∷ txs) w (h, hs) =
      continue-holds (λ p. view id p.1 ≡ view id w) (recover_one tx w) _
        (λ e. recover_one-view tx w h)
        (λ _. recover_all_holds txs (recover_one tx w).1 hs ∙ recover_one-view tx w h)

abbrev pub is_error : {A : Type 0} → Result A → Bool
is_error (ok a) = false
is_error (err e) = true

module _ {D : Type 0} ⦃d : Decimal D⦄ (scan_text : Option String → Result String)
    (scan-null : scan_text none ≡ err call_failed) where
  scan_all-null :
      (rs : List (TxRow D))
      → 0 < count (λ r. is_none r.tx_hash) rs
      → is_error (scan_all scan_text rs) ≡ true
  unfolding scan_all scan_stuck
  scan_all-null [] h = elim h [ ]
  scan_all-null (r ∷ rs) h = grind (arith, scan-null, scan_all-null rs)

  abbrev pub null_and_stuck : ℕ → TxRow D → Bool
  null_and_stuck now r = stuck_row stuck_threshold now r && is_none r.tx_hash

  -- One stuck transaction with no hash on record, a `pending` one say, makes `RecoverPending` fail
  -- before it recovers anything, where scanning NULL into a text is an error: no row changes and
  -- nothing is queued.
  pub recover_pending_null :
      (w : World D)
      → 0 < count (null_and_stuck w.now) w.rows
      → (is_error (recover_pending scan_text w).0 ≡ true)
        × (((recover_pending scan_text w).1.rows ≡ w.rows)
            × ((recover_pending scan_text w).1.queue ≡ w.queue))
  unfolding recover_pending get_stuck_pending_txes
  recover_pending_null w h =
      let stuck = select_where (stuck_row stuck_threshold w.now) w.rows in
      let some_null : 0 < count (λ r. is_none r.tx_hash) stuck =
        rw (count-select (λ r. is_none r.tx_hash) (stuck_row stuck_threshold w.now) w.rows) h in
      grind (arith, scan_all-null stuck some_null)
