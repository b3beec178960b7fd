-- ===== src/Batch/Status.antt =====
-- What the status of a batch says of its transactions.
use flowx.Prelude.{
  ◌+◌, ◌≤◌, ◌≡◌, ◌↔◌, ◌⊎◌, ◌<◌, Bool, true, List, [], ◌∷◌, arith, ◌==◌, length, count,
  if◌then◌else◌,
}
use flowx.Domain.{Transaction}
use flowx.Domain.Status.{
  confirmed, failed, compliance_hold, BatchStatus, processing, completed, tx_status_eq,
}
use flowx.Batch.{with_status, aggregate_status}

module _ {D : Type 0} where
  abbrev settled : Transaction D → Bool
  settled t = if t.status == confirmed then true else t.status == failed

  counts_disjoint :
      (txs : List (Transaction D))
      → count (with_status confirmed) txs
          + count (with_status failed) txs
          + count (with_status compliance_hold) txs
        ≤ length txs
  counts_disjoint [] = omega arith
  counts_disjoint (t ∷ txs) = ground (arith, counts_disjoint txs)

  -- A batch is reported as completed exactly if it has a transaction and all of them are
  -- confirmed, and as failed exactly if it has one and all of them failed.
  pub aggregate_final :
      (txs : List (Transaction D))
      → ((aggregate_status txs ≡ completed)
          ↔ ((0 < length txs) × (count (with_status confirmed) txs ≡ length txs)))
        × ((aggregate_status txs ≡ BatchStatus.failed)
            ↔ ((0 < length txs) × (count (with_status failed) txs ≡ length txs)))
  unfolding aggregate_status
  aggregate_final txs = ground (arith, counts_disjoint txs)

  -- While one of its transactions is on hold, a batch is pending, processing or on hold, and it is
  -- on hold exactly if all the others are confirmed or failed.
  pub aggregate_held :
      (txs : List (Transaction D))
      → 0 < count (with_status compliance_hold) txs
      → ((aggregate_status txs ≡ BatchStatus.pending)
          ⊎ ((aggregate_status txs ≡ processing)
              ⊎ (aggregate_status txs ≡ BatchStatus.compliance_hold)))
        × ((aggregate_status txs ≡ BatchStatus.compliance_hold) ↔ (
            count (with_status confirmed) txs
              + count (with_status failed) txs
              + count (with_status compliance_hold) txs
            ≡ length txs))
  unfolding aggregate_status
  aggregate_held txs h = ground (arith, counts_disjoint txs)
