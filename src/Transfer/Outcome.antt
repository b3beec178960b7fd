-- ===== src/Transfer/Outcome.antt =====
-- What a call for a transfer may have done to the rows and to the queue.
use flowx.Prelude.{
  ℕ, ◌≡◌, refl, ap, ◌⊎◌, inl, String, Option, none, some, [], ◌∷◌, ◌++◌, count, ltb, leb, string_eq,
  nullable, ◌==◌, arith, if◌then◌else◌,
}
use flowx.Decimal.{Decimal}
use flowx.Exec.{call_failed, transfer_limit_reached, raise, gets, Result, ok, err, continue, ◌>>=◌}
use flowx.Exec.Keeps.{if-holds, either-holds}
use flowx.Domain.{Transaction, Wallet, ScreeningRequest, ScreeningDecision}
use flowx.Compliance.Service.{Context}
use flowx.Transfer.Service.{Services, TransferRequest}
use flowx.Domain.Status.{TransactionStatus, pending, compliance_hold, clear}
use flowx.World.{put_rows, rest_faults, World, Action}
use flowx.TxRepo.{nullable_uuid, row_of, conflicts, insert, create}
use flowx.TxRepo.Quota.{in_month, create_with_monthly_limit}
use flowx.Transfer.Reads.{footprint, attempt-holds}

own_column :
    (own : String) (o : Option String)
    → o ≡ nullable own
    → (if own == "" then nullable_uuid o else some own) ≡ o
own_column own o h = grind (arith, h)

unowned_column : (own : String) (o : Option String) → o ≡ nullable own → nullable_uuid o ≡ o
unowned_column own o h = grind (arith, h)

-- The tenant of the row is the transaction's, where that is the context's.
pub own_tenant :
    {D : Type 0} ⦃d : Decimal D⦄ (own : String) (t : Transaction D)
    → t.tenant_id ≡ nullable own
    → (row_of own t).tenant_id ≡ t.tenant_id
unfolding row_of
own_tenant own t h = own_column own t.tenant_id h

pub unowned_tenant :
    {D : Type 0} ⦃d : Decimal D⦄ (own : String) (t : Transaction D)
    → t.tenant_id ≡ nullable own
    → (row_of "" t).tenant_id ≡ t.tenant_id
unfolding row_of
unowned_tenant own t h = unowned_column own t.tenant_id h

-- A decision that is `clear` only under a condition.
abbrev pub ClearOnlyIf : Type 0 → Result ScreeningDecision → Type 0
ClearOnlyIf C (err e) = Unit
ClearOnlyIf C (ok x) = x.status ≡ clear → C

-- The status of the row and the decision that goes with it, under a condition for `pending`.
abbrev pub Screened : Type 0 → Result (TransactionStatus × Option ScreeningDecision) → Type 0
Screened C (err e) = Unit {0}
Screened C (ok (s, o)) =
    ((s ≡ pending) × ((o ≡ none) × C))
    ⊎ ((s ≡ compliance_hold) × ((x : ScreeningDecision) × (o ≡ some x)))

module _ {D : Type 0} ⦃d : Decimal D⦄ where
  -- One row was added, for the transaction and under its tenant.
  abbrev pub AddsRow : Transaction D → World D → World D → Type 0
  AddsRow t w w' =
      (tenant : String) × ((row_of tenant t).tenant_id ≡ t.tenant_id)
      × (w'.rows ≡ w.rows ++ row_of tenant t ∷ [])

  -- The transaction of a request: its ends, its asset and amount, its batch and its tenant.
  abbrev pub IsOf : Context → TransferRequest D → Transaction D → Type 0
  IsOf ctx q t =
      (t.from_wallet ≡ q.from_id)
      × (t.to_wallet ≡ q.to_id)
      × (t.to_address ≡ q.to_address)
      × (t.asset ≡ q.asset)
      × (t.amount ≡ q.amount)
      × (t.batch_id ≡ nullable q.batch_id)
      × (t.reference ≡ q.reference)
      × (t.tenant_id ≡ nullable ctx.tenant)

  -- What is screened for a request: its asset and amount, the key of its source, and its address or
  -- the key of its destination.
  abbrev pub IsScreening : Services D → Context → TransferRequest D → ScreeningRequest D → Type 0
  IsScreening sv ctx q r =
      (r.org_id ≡ ctx.tenant)
      × (r.from_wallet_id ≡ q.from_id)
      × (r.to_wallet_id ≡ q.to_id)
      × (r.asset ≡ q.asset)
      × (r.amount ≡ q.amount)
      × ((src : Wallet) × (w : World D) × ((sv.find_wallet q.from_id w).0 ≡ ok src)
          × (r.from_public_key ≡ src.public_key))
      × (((q.to_id ≡ "") × (r.to_public_key ≡ q.to_address))
          ⊎ ((dst : Wallet) × (w : World D) × ((sv.find_wallet q.to_id w).0 ≡ ok dst)
              × (r.to_public_key ≡ dst.public_key)))

  -- What a call for a transfer may have done: if it raised an error, nothing was queued and the
  -- only row it may have left is one that is held; if it returned, there is one row for the
  -- transaction, which is pending under the condition and may be queued, or held and not queued. The
  -- transaction has the property.
  abbrev pub Initiated :
      Type 0 → (Transaction D → Type 0) → World D → Result (Transaction D) × World D → Type 0
  Initiated C P w (err e, w') =
      (w'.queue ≡ w.queue)
      × ((w'.rows ≡ w.rows)
          ⊎ ((t : Transaction D) × P t × ((t.status ≡ compliance_hold) × AddsRow t w w')))
  Initiated C P w (ok t, w') =
      P t
      × (AddsRow t w w'
          × (((t.status ≡ pending)
                × (C × ((w'.queue ≡ w.queue) ⊎ (w'.queue ≡ w.queue ++ t.id ∷ []))))
              ⊎ ((t.status ≡ compliance_hold) × (w'.queue ≡ w.queue))))

  pub quiet :
      {B : Type 0} (C : Type 0) (P : Transaction D → Type 0) (w : World D) (p : Result B × World D)
      (f : B → Action D (Transaction D))
      → footprint p.1 ≡ footprint w
      → ((b : B) → p.0 ≡ ok b → footprint p.1 ≡ footprint w → Initiated C P w (f b p.1))
      → Initiated C P w (continue p f)
  quiet C P w (ok b, s) f h k = k b refl h
  quiet C P w (err e, s) f h k = (ap (λ x. x.1) h, inl (ap (λ x. x.0) h))

  -- The INSERT of `initiate`, with or without the quota.
  unfoldable pub Persisted : Transaction D → World D → Result (Unit {0}) × World D → Type 0
  Persisted t w (err e, w') = footprint w' ≡ footprint w
  Persisted t w (ok _, w') = (w'.queue ≡ w.queue) × AddsRow t w w'

module _ {D : Type 0} ⦃d : Decimal D⦄ where
  pub insert-Persisted :
      (tenant : String) (t : Transaction D) (w s : World D)
      → (row_of tenant t).tenant_id ≡ t.tenant_id
      → footprint s ≡ footprint w
      → Persisted t w (insert (row_of tenant t) s)
  unfolding insert Persisted
  insert-Persisted tenant t w s own h =
      either-holds (Persisted t w) (ltb 0 (count (conflicts (row_of tenant t)) s.rows))
        (err call_failed, s) (ok tt, put_rows (s.rows ++ row_of tenant t ∷ []) s) h
        (ap (λ x. x.1) h, (tenant, own, ap (λ x. x.0 ++ row_of tenant t ∷ []) h))

  pub create-Persisted :
      (tenant : String) (t : Transaction D) (w : World D)
      → (row_of tenant t).tenant_id ≡ t.tenant_id
      → Persisted t w (create tenant t w)
  unfolding create Persisted
  create-Persisted tenant t w own =
      attempt-holds (Persisted t w) (insert (row_of tenant t)) w refl
        (insert-Persisted tenant t w (record w { faults = rest_faults w.faults }) own refl)

  abbrev pub quota_body : Transaction D → String → ℕ → ℕ → ℕ → Action D (Unit {0})
  quota_body t tenant start end limit = do
    n ← gets (λ w. count (in_month tenant start end) w.rows)
    if leb limit n then raise transfer_limit_reached else insert (row_of "" t)

  pub quota-Persisted :
      (t : Transaction D) (tenant : String) (start end limit : ℕ) (w : World D)
      → (row_of "" t).tenant_id ≡ t.tenant_id
      → Persisted t w (create_with_monthly_limit t tenant start end limit w)
  unfolding create_with_monthly_limit Persisted
  quota-Persisted t tenant start end limit w own =
      let w' : World D = record w { faults = rest_faults w.faults } in
      attempt-holds (Persisted t w) (quota_body t tenant start end limit) w refl (
        if-holds (Persisted t w) (leb limit (count (in_month tenant start end) w.rows))
          (raise transfer_limit_reached) (insert (row_of "" t)) w' refl
          (insert-Persisted "" t w w' own refl))
