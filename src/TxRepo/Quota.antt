-- ===== src/TxRepo/Quota.antt =====
-- The monthly quota of internal/postgres/transaction_repo.go: the count, and the insert that is
-- made in one database transaction with it. The lock on the tenant's row makes it one step.
use flowx.Prelude.{
  ℕ, ◌≤◌, ◌≡◌, ◌⊎◌, inl, inr, ap, false, String, Bool, ◌&&◌, some, List, [], ◌∷◌, ltb, leb, arith,
  has, All, count, count-append, if◌then◌else◌, string_eq, eq_iff, eq_iff,
}
use flowx.Decimal.{Decimal}
use flowx.Exec.{transfer_limit_reached, raise, gets, ◌>>=◌}
use flowx.Domain.{Transaction}
use flowx.World.{TxRow, World, Action, attempt}
use flowx.TxRepo.{row_of, insert}

module _ {D : Type 0} where
  -- tenant_id = $1 AND created_at >= $2 AND created_at < $3
  abbrev pub in_month : String → ℕ → ℕ → TxRow D → Bool
  in_month tenant start finish r =
      has r.tenant_id tenant && leb start r.created_at && ltb r.created_at finish

  -- `CountMonthlyTransfersByTenant`
  unfoldable pub count_monthly_transfers : String → ℕ → ℕ → Action D ℕ
  count_monthly_transfers tenant start finish =
      attempt (gets (λ w. count (in_month tenant start finish) w.rows))

-- `CreateWithMonthlyLimit`, over the month from `start` to `finish`. It takes the tenant from its
-- argument and leaves the context's alone. A failure of the lock, the count, the insert or the
-- commit rolls back.
unfoldable pub create_with_monthly_limit :
    {D : Type 0} ⦃d : Decimal D⦄ → Transaction D → String → ℕ → ℕ → ℕ → Action D (Unit {0})
unfolding row_of insert
create_with_monthly_limit t tenant start finish limit = attempt (do
  n ← gets (λ w. count (in_month tenant start finish) w.rows)
  if leb limit n then raise transfer_limit_reached else insert (row_of "" t))

-- One call of `CreateWithMonthlyLimit`, with the month that it counts.
pub record Call (D : Type 0) : Type 0 where
  pub transaction : Transaction D
  pub tenant : String
  pub start : ℕ
  pub finish : ℕ

-- A call of a tenant for a transaction of its own.
abbrev pub IsOwn : {D : Type 0} → Call D → Type 0
IsOwn c = c.transaction.tenant_id ≡ some c.tenant

-- A call that counts the month from `start` to `finish`, or whose transaction is of another month.
abbrev pub IsOfMonth : {D : Type 0} → ℕ → ℕ → Call D → Type 0
IsOfMonth start finish c =
    ((c.start ≡ start) × (c.finish ≡ finish))
    ⊎ ((leb start c.transaction.created_at && ltb c.transaction.created_at finish) ≡ false)

module _ {D : Type 0} ⦃d : Decimal D⦄ (limit_of : String → ℕ) where
  -- Calls, each with its tenant's limit.
  unfoldable pub create_each : List (Call D) → World D → World D
  unfolding create_with_monthly_limit
  create_each [] w = w
  create_each (c ∷ cs) w =
      create_each cs
        (create_with_monthly_limit c.transaction c.tenant c.start c.finish (limit_of c.tenant) w).1

  module _ (start finish : ℕ) where
    abbrev pub used : String → World D → ℕ
    used tenant w = count (in_month tenant start finish) w.rows

    create-used :
        (tenant : String) (c : Call D) (w : World D)
        → IsOwn c
        → IsOfMonth start finish c
        → used tenant w ≤ limit_of tenant
        → used tenant
            (create_with_monthly_limit c.transaction c.tenant c.start c.finish
              (limit_of c.tenant)
              w).1
          ≤ limit_of tenant
    unfolding create_with_monthly_limit insert row_of
    create-used tenant c w own (inl (e1, e2)) h = grind (
      arith,
      count-append (in_month tenant start finish) w.rows,
      eq_iff c.tenant tenant,
      ap limit_of,
    )
    create-used tenant c w own (inr e) h =
        grind (arith, count-append (in_month tenant start finish) w.rows)

    -- However many transfers are created, each call with its tenant's limit and for a transfer of its
    -- own tenant, no tenant's month from `start` to `finish` ever holds more rows than the tenant's
    -- limit, if it did not before, where every call counts that month or is for a transfer of another.
    pub quota_kept :
        (tenant : String) (cs : List (Call D)) (w : World D)
        → All IsOwn cs
        → All (IsOfMonth start finish) cs
        → used tenant w ≤ limit_of tenant
        → used tenant (create_each cs w) ≤ limit_of tenant
    unfolding create_each
    quota_kept tenant [] w own months h = h
    quota_kept tenant (c ∷ cs) w (mine, own) (m, months) h =
        quota_kept tenant cs
          (create_with_monthly_limit c.transaction c.tenant c.start c.finish (limit_of c.tenant)
            w).1
          own months (create-used tenant c w mine m h)
