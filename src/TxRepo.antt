-- ===== src/TxRepo.antt =====
-- internal/postgres/transaction_repo.go: each method is one SQL statement over `transactions`, or
-- one database transaction of several. `tenant` is the tenant of the context, "" for none.
pub mod Writes
pub mod Quota
pub mod Final
pub mod Reopen
use flowx.Prelude.{
  ℕ, suc, ◌+◌, ◌≡◌, String, Bool, true, false, not, ◌&&◌, ◌||◌, Option, none, some, List, [], ◌∷◌,
  ◌++◌, ltb, leb, ◌==◌, has, is_none, nullable, or_empty, count, if◌then◌else◌, nat_eq, string_eq,
}
use flowx.Prelude.Int.{ℤ, pos, int_eq}
use flowx.Decimal.{Decimal}
use flowx.Exec.{
  Error, concurrent_update, transaction_not_found, transfer_limit_reached, call_failed, Result, ok,
  err, pure, raise, gets, or_raise, ◌>>=◌, ◌>>◌,
}
use flowx.Domain.{Transaction}
use flowx.Domain.Status.{
  TransactionStatus, pending, submitted, confirmed, failed, compliance_hold, TransactionType,
  transfer, tx_status_eq,
}
use flowx.Table.{update_where, select_where, query_row}
use flowx.World.{TxRow, World, Action, attempt, put_rows}

-- `nullableUUID`
abbrev pub nullable_uuid : Option String → Option String
nullable_uuid none = none
nullable_uuid (some s) = nullable s

-- `nullableFeeBps`
abbrev pub nullable_fee_bps : ℤ → Option ℤ
nullable_fee_bps n = if n == pos 0 then none else some n

abbrev or_zero : Option ℤ → ℤ
or_zero none = pos 0
or_zero (some n) = n

-- ` AND tenant_id = $n`, which is added for a tenant's context only
abbrev pub in_tenant : String → Option String → Bool
in_tenant tenant column = if tenant == "" then true else has column tenant

module _ {D : Type 0} ⦃d : Decimal D⦄ where
  -- The values of the INSERT. NUMERIC(20, 7) columns round to seven places, as `Round(7)` does.
  unfoldable pub row_of : String → Transaction D → TxRow D
  row_of tenant t = record {
    id = t.id;
    tx_hash = nullable t.tx_hash;
    tx_type = t.tx_type;
    status = t.status;
    from_wallet = nullable t.from_wallet;
    to_wallet = nullable t.to_wallet;
    to_address = nullable t.to_address;
    asset = t.asset;
    amount = d.round7 t.amount;
    fee = some (d.round7 t.fee);
    fee_bps = nullable_fee_bps t.fee_bps;
    tenant_id = if tenant == "" then nullable_uuid t.tenant_id else some tenant;
    batch_id = nullable_uuid t.batch_id;
    reference = nullable t.reference;
    created_at = t.created_at;
    reconciled_at = t.reconciled_at;
    requeue_count = t.requeue_count;
    idempotency_key = nullable t.idempotency_key;
  }

  -- The SELECT list with its COALESCE calls, and the Scan. The key is not among the columns.
  unfoldable pub scan : TxRow D → Transaction D
  scan r = record {
    id = r.id;
    tx_hash = or_empty r.tx_hash;
    tx_type = r.tx_type;
    status = r.status;
    from_wallet = or_empty r.from_wallet;
    to_wallet = or_empty r.to_wallet;
    to_address = or_empty r.to_address;
    asset = r.asset;
    amount = r.amount;
    fee = elim r.fee [ none ↦ d.zero | some f ↦ f ];
    fee_bps = or_zero r.fee_bps;
    tenant_id = r.tenant_id;
    batch_id = r.batch_id;
    reference = or_empty r.reference;
    created_at = r.created_at;
    reconciled_at = r.reconciled_at;
    requeue_count = r.requeue_count;
    idempotency_key = "";
  }

-- Two hashes that a UNIQUE column holds against one another: NULL is never equal to NULL.
abbrev pub same_hash : Option String → Option String → Bool
same_hash none h = false
same_hash (some g) h = has h g

module _ {D : Type 0} where
  -- The PRIMARY KEY and the UNIQUE column: what makes an INSERT fail.
  unfoldable pub conflicts : TxRow D → TxRow D → Bool
  conflicts new old = (old.id == new.id) || same_hash new.tx_hash old.tx_hash

  unfoldable pub insert : TxRow D → Action D (Unit {0})
  unfolding conflicts
  insert r w =
      if ltb 0 (count (conflicts r) w.rows)
      then (err call_failed, w)
      else (ok tt, put_rows (w.rows ++ r ∷ []) w)

  -- UPDATE … WHERE p, with the number of affected rows
  unfoldable pub exec_update : (TxRow D → Bool) → (TxRow D → TxRow D) → Action D ℕ
  exec_update p f = attempt (λ w. (ok (count p w.rows), put_rows (update_where p f w.rows) w))

  -- `if tag.RowsAffected() == 0 { return domain.ErrConcurrentUpdate }`
  unfoldable pub must_affect : ℕ → Action D (Unit {0})
  must_affect n = if n == 0 then raise concurrent_update else pure tt

  -- another row holds the hash: the UNIQUE constraint refuses the UPDATE
  abbrev pub hash_taken : String → Option String → List (TxRow D) → Bool
  hash_taken id h rs = ltb 0 (count (λ r. not (r.id == id) && same_hash h r.tx_hash) rs)

module _ {D : Type 0} ⦃d : Decimal D⦄ where
  -- `Create`
  unfoldable pub create : String → Transaction D → Action D (Unit {0})
  unfolding row_of insert
  create tenant t = attempt (insert (row_of tenant t))

  -- `UpsertByTxHash`: ON CONFLICT (tx_hash) DO NOTHING
  unfoldable pub upsert_by_tx_hash : String → Transaction D → Action D (Unit {0})
  unfolding row_of insert
  upsert_by_tx_hash tenant t = attempt (λ w.
      if ltb 0 (count (λ r. same_hash (nullable t.tx_hash) r.tx_hash) w.rows)
      then (ok tt, w)
      else insert (row_of tenant t) w)

  abbrev pub by_id : String → String → TxRow D → Bool
  by_id tenant id r = (r.id == id) && in_tenant tenant r.tenant_id

  -- `GetByID`
  unfoldable pub get_by_id : String → String → Action D (Transaction D)
  unfolding query_row scan
  get_by_id tenant id = attempt (do
    row ← gets (λ w. query_row (by_id tenant id) w.rows)
    r ← or_raise row transaction_not_found
    pure (scan r))

  -- `GetByIdempotencyKey`
  unfoldable pub get_by_idempotency_key : String → String → Action D (Transaction D)
  unfolding query_row scan
  get_by_idempotency_key org key = attempt (do
    row ← gets (λ w. query_row (λ r. has r.idempotency_key key && in_tenant org r.tenant_id) w.rows)
    r ← or_raise row transaction_not_found
    pure (record (scan r) { idempotency_key = key }))

module _ {D : Type 0} where
  abbrev pub claimable : String → TxRow D → Bool
  claimable id r = (r.id == id) && (r.status == pending)

  -- `ClaimForSubmission`
  unfoldable pub claim_for_submission : String → Action D (Unit {0})
  unfolding exec_update must_affect
  claim_for_submission id = do
    n ← exec_update (claimable id) (λ r. record r { status = submitted })
    must_affect n

  abbrev pub stuck_submitted : String → ℕ → ℕ → TxRow D → Bool
  stuck_submitted id older_than now r =
      (r.id == id)
      && (r.status == submitted)
      && is_none r.tx_hash
      && ltb (r.created_at + older_than) now

  -- `ResetStuckSubmittedToPending`
  unfoldable pub reset_stuck_submitted_to_pending : String → ℕ → Action D (Unit {0})
  unfolding exec_update must_affect
  reset_stuck_submitted_to_pending id older_than = do
    now ← gets (λ w. w.now)
    n ← exec_update (stuck_submitted id older_than now) (λ r. record r { status = pending })
    must_affect n

  abbrev pub unconfirmed : String → String → TxRow D → Bool
  unconfirmed tenant id r =
      (r.id == id) && not (r.status == confirmed) && in_tenant tenant r.tenant_id

  -- `UpdateStatus`
  unfoldable pub update_status : String → String → TransactionStatus → String → Action D (Unit {0})
  unfolding update_where
  update_status tenant id status hash = attempt (λ w.
      if ltb 0 (count (unconfirmed tenant id) w.rows) && hash_taken id (nullable hash) w.rows
      then (err call_failed, w)
      else (
        ok tt,
        put_rows
            (update_where (unconfirmed tenant id)
              (λ r. record r { status = status; tx_hash = nullable hash }) w.rows)
            w,
      ))

  abbrev pub in_flight : String → TxRow D → Bool
  in_flight id r = (r.id == id) && ((r.status == pending) || (r.status == submitted))

  -- `UpdateTxConfirmed`
  unfoldable pub update_tx_confirmed : String → String → Action D (Unit {0})
  unfolding exec_update must_affect
  update_tx_confirmed id hash = do
    taken ← gets (λ w. ltb 0 (count (in_flight id) w.rows) && hash_taken id (nullable hash) w.rows)
    n ←
        (if taken
          then attempt (raise call_failed)
          else exec_update (in_flight id)
              (λ r. record r { status = confirmed; tx_hash = nullable hash }))
    must_affect n

  -- `UpdateTxFailed`
  unfoldable pub update_tx_failed : String → Action D (Unit {0})
  unfolding exec_update must_affect
  update_tx_failed id = do
    n ← exec_update (in_flight id) (λ r. record r { status = failed })
    must_affect n

  -- `UpdateReconciliationStatus`
  unfoldable pub update_reconciliation_status : String → TransactionStatus → Action D (Unit {0})
  unfolding exec_update
  update_reconciliation_status id status = do
    exec_update (λ r. r.id == id) (λ r. record r { status = status })
    pure tt

  -- `IncrementRequeueCount`
  unfoldable pub increment_requeue_count : String → Action D ℕ
  unfolding exec_update query_row
  increment_requeue_count id = do
    exec_update (λ r. r.id == id) (λ r. record r { requeue_count = suc r.requeue_count })
    row ← gets (λ w. query_row (λ r. r.id == id) w.rows)
    r ← or_raise row call_failed
    pure r.requeue_count

  -- `UpdateReconciledAt`
  unfoldable pub update_reconciled_at : String → Action D (Unit {0})
  unfolding exec_update
  update_reconciled_at id = do
    now ← gets (λ w. w.now)
    exec_update (λ r. r.id == id) (λ r. record r { reconciled_at = some now })
    pure tt
