-- ===== src/Batch.antt =====
-- internal/batch: many transfers in one call, their status as a whole, and their export.
pub mod Status
pub mod Items
pub mod Csv
use flowx.Prelude.{
  ℕ, suc, ◌+◌, ◌≤◌, ◌≡◌, refl, String, Bool, true, false, not, ◌&&◌, ◌||◌, Option, none, some, List,
  [], ◌∷◌, ◌++◌, arith, ltb, leb, eqb, ◌==◌, string_eq, length, count, has, is_none, nullable, map,
  if◌then◌else◌, concat,
}
use flowx.Prelude.Int.{pos}
use flowx.Decimal.{Decimal}
use flowx.Exec.{
  Error, batch_empty, batch_too_large, Result, ok, err, pure, raise, gets, catch, ◌>>=◌, ◌>>◌,
}
use flowx.Domain.{Transaction}
use flowx.Domain.Status.{
  TransactionStatus, pending, submitted, confirmed, failed, reconciliation_failed, compliance_hold,
  transfer, BatchStatus, processing, partial, completed, tx_status_eq,
}
use flowx.Table.{select_where}
use flowx.World.{TxRow, World, Action, attempt, draw}
use flowx.TxRepo.{create, scan, in_tenant}
use flowx.Compliance.Service.{Context}
use flowx.Transfer.Service.{Services, initiate_batch_transfer, initiate_batch_payout}
use flowx.Transfer.Address.{codes}

-- `MaxItems`
abbrev pub max_items : ℕ
max_items = 100

pub record Item (D : Type 0) : Type 0 where
  pub to_wallet_id : String
  pub to_address : String
  pub asset : String
  pub amount : D
  pub reference : String

-- The row of `batches` as it is made.
pub record Batch : Type 0 where
  pub id : String
  pub total_count : ℕ
  pub created_at : ℕ

-- The switch of `aggregateStatus`, on its counts.
unfoldable pub status_of_counts : (succeeded failed held total : ℕ) → BatchStatus
status_of_counts s f h total =
    if ltb 0 h && eqb (s + f + h) total
    then BatchStatus.compliance_hold
    else if eqb (s + f) 0
    then BatchStatus.pending
    else if ltb (s + f) total
    then processing
    else if eqb f total
    then BatchStatus.failed
    else if eqb s total
    then completed
    else partial

module _ {D : Type 0} where
  abbrev pub with_status : TransactionStatus → Transaction D → Bool
  with_status s t = t.status == s

  -- `aggregateStatus`
  unfoldable pub aggregate_status : List (Transaction D) → BatchStatus
  unfolding status_of_counts
  aggregate_status txs =
      status_of_counts (count (with_status confirmed) txs) (count (with_status failed) txs)
        (count (with_status compliance_hold) txs) (length txs)

module _ {D : Type 0} ⦃d : Decimal D⦄ (sv : Services D) (ctx : Context) where
  abbrev failed_item : String → String → Item D → String → ℕ → Transaction D
  failed_item from_id batch_id i id now = record {
    id = id;
    tx_hash = "";
    tx_type = transfer;
    status = failed;
    from_wallet = from_id;
    to_wallet = i.to_wallet_id;
    to_address = i.to_address;
    asset = i.asset;
    amount = i.amount;
    fee = d.zero;
    fee_bps = pos 0;
    tenant_id = none;
    batch_id = some batch_id;
    reference = i.reference;
    created_at = now;
    reconciled_at = none;
    requeue_count = 0;
    idempotency_key = "";
  }

  -- The call for one item.
  unfoldable pub initiate_item : String → String → Item D → Action D (Transaction D)
  initiate_item from_id batch_id i =
      if not (i.to_address == "")
      then initiate_batch_payout sv ctx from_id i.to_address i.asset i.amount batch_id i.reference
      else initiate_batch_transfer sv ctx from_id i.to_wallet_id i.asset i.amount batch_id
          i.reference

  -- What an item's error leaves: a row with the status failed.
  unfoldable pub record_failed : String → String → Item D → Action D (Transaction D)
  record_failed from_id batch_id i = do
    id ← draw sv.uuid
    now ← gets (λ w. w.now)
    create ctx.tenant (failed_item from_id batch_id i id now)
    pure (failed_item from_id batch_id i id now)

  -- The loop over the items: a failed item is recorded, and the others go on.
  unfoldable pub initiate_items : String → String → List (Item D) → Action D (List (Transaction D))
  unfolding initiate_item record_failed
  initiate_items from_id batch_id [] = pure []
  initiate_items from_id batch_id (i ∷ is) = do
    tx ← catch (initiate_item from_id batch_id i) (λ _. record_failed from_id batch_id i)
    txs ← initiate_items from_id batch_id is
    pure (tx ∷ txs)

  -- `CreateBatch`; `save` is the INSERT of `BatchRepo.Create`.
  unfoldable pub create_batch :
      (Batch → Action D (Unit {0}))
      → String
      → List (Item D)
      → Action D (Batch × List (Transaction D))
  unfolding initiate_items
  create_batch save from_id items =
      if eqb (length items) 0
      then raise batch_empty
      else if ltb max_items (length items)
      then raise batch_too_large
      else (do
        id ← draw sv.uuid
        now ← gets (λ w. w.now)
        let b : Batch = record { id = id; total_count = length items; created_at = now }
        save b
        txs ← initiate_items from_id b.id items
        pure (b, txs))

module _ {D : Type 0} ⦃d : Decimal D⦄ where
  -- `ListByBatch`, without the order
  unfoldable pub list_by_batch : String → String → Action D (List (Transaction D))
  unfolding select_where scan
  list_by_batch tenant id = attempt (
      gets (λ w.
        map scan (select_where (λ r. has r.batch_id id && in_tenant tenant r.tenant_id) w.rows)))

  -- `GetBatch`: the status is that of the transactions.
  unfoldable pub get_batch :
      (String → Action D Batch)
      → String
      → String
      → Action D (Batch × (BatchStatus × List (Transaction D)))
  unfolding list_by_batch aggregate_status
  get_batch find tenant id = do
    b ← find id
    txs ← list_by_batch tenant id
    pure (b, (aggregate_status txs, txs))
