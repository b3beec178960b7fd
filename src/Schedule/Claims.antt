-- ===== src/Schedule/Claims.antt =====
-- What no number of runs can do: start the transfer of one occurrence twice.
use mathlib.Core.Path.{subst}
use flowx.Prelude.{
  ℕ, ◌≤◌, ◌<◌, ◌≡◌, ◌≢◌, refl, String, Bool, true, false, ◌&&◌, List, [], ◌∷◌, leb, arith, ◌==◌,
  nat_eq, string_eq, eq_iff, count, or_empty,
}
use flowx.Decimal.{Decimal}
use flowx.Exec.{Result, ok, err}
use flowx.Exec.Keeps.{continue-holds}
use flowx.Domain.{Transaction}
use flowx.Domain.Recurring.{
  ScheduleStatus, active, processing, failed, Schedule, schedule_status_eq,
}
use flowx.Table.{update_where, count-update_where_zero}
use flowx.World.{Action, rest_faults}
use flowx.Schedule.{Planner, set_row, update, claimable, claim}
use flowx.Schedule.Roll.{add_interval_later}
use flowx.Schedule.Worker.{advanced, conclude, fire, after_claim, run_one, run_all}

module _ {D : Type 0} (id : String) (t : ℕ) where
  -- An active row of the schedule whose next run is at `t` or before.
  abbrev armed : Schedule D → Bool
  armed r = (r.id == id) && (r.status == active) && leb r.next_run_at t

  abbrev IsSpent : Planner D → Type 0
  IsSpent s = count armed s.schedules ≡ 0

  -- With a row to claim, the time that is claimed is past the spent one.
  claimable-later :
      (u : ℕ) (rs : List (Schedule D)) → count armed rs ≡ 0 → 1 ≤ count (claimable id u) rs → t < u
  claimable-later u [] h k = absurd (omega arith)
  claimable-later u (r ∷ rs) h k = ground (arith, claimable-later u rs)

  -- Without a row of the schedule there is nothing to claim.
  no_row :
      (f : Schedule D → Schedule D) (rs : List (Schedule D))
      → count (λ r. r.id == id) rs ≡ 0
      → (count armed (update_where (claimable id t) f rs) ≡ 0) × (count (claimable id t) rs ≡ 0)
  unfolding update_where
  no_row f [] h = (refl, refl)
  no_row f (r ∷ rs) h = ground (arith, no_row f rs)

  claim_rows :
      (now : ℕ) (rs : List (Schedule D))
      → count (λ r. r.id == id) rs ≤ 1
      → 1 ≤ count (claimable id t) rs
      → count armed (
          update_where
            (claimable id t)
            (λ r. record r { status = processing; updated_at = now })
            rs)
        ≡ 0
  unfolding update_where
  claim_rows now [] h k = absurd (omega arith)
  claim_rows now (r ∷ rs) h k = ground (
    arith,
    claim_rows now rs,
    no_row (λ r. record r { status = processing; updated_at = now }) rs,
  )

module _ {D : Type 0} ⦃d : Decimal D⦄ (labels : ScheduleStatus → Bool)
    (initiate_transfer : String → String → String → String → D → Action D (Transaction D))
    (id : String) (t : ℕ) where
  claim-spends :
      (s : Planner D)
      → count (λ r. r.id == id) s.schedules ≤ 1
      → (claim labels id t s).0 ≡ ok true
      → IsSpent id t (claim labels id t s).1
  unfolding claim
  claim-spends s one won = ground (arith, claim_rows id t s.world.now s.schedules)

  claim-IsSpent :
      (j : String) (u : ℕ) (s : Planner D) → IsSpent id t s → IsSpent id t (claim labels j u s).1
  unfolding claim
  claim-IsSpent j u s h = ground (
    arith,
    count-update_where_zero (armed id t) (claimable j u)
        (λ (r : Schedule D). record r { status = processing; updated_at = s.world.now }) s.schedules
        (λ r p q. ground arith) h,
  )

  update-IsSpent :
      (sch : Schedule D) (s : Planner D)
      → armed id t sch ≡ false
      → IsSpent id t s
      → IsSpent id t (update labels "" sch s).1
  unfolding update
  update-IsSpent sch s k h = ground (
    arith,
    count-update_where_zero (armed id t) (λ r. (r.id == sch.id) && true) (set_row sch) s.schedules
        (λ r p q. ground (arith, eq_iff r.id sch.id)) h,
  )

  advanced-armed :
      (sch : Schedule D) (now : ℕ)
      → (sch.id ≡ id → t ≤ sch.next_run_at)
      → armed id t (advanced sch now) ≡ false
  unfolding advanced
  advanced-armed sch now k =
      ground (arith, eq_iff sch.id id, add_interval_later sch.next_run_at sch.frequency)

  conclude-IsSpent :
      (sch : Schedule D) (r : Result (Transaction D)) (s : Planner D)
      → (sch.id ≡ id → t ≤ sch.next_run_at)
      → IsSpent id t s
      → IsSpent id t (conclude labels initiate_transfer sch r s).1
  unfolding conclude
  conclude-IsSpent sch (ok tx) s k h =
      update-IsSpent (advanced sch s.world.now) s (advanced-armed sch s.world.now k) h
  conclude-IsSpent sch (err e) s k h =
      update-IsSpent (record sch { status = failed; updated_at = s.world.now }) s (ground arith) h

  fire-IsSpent :
      (sch : Schedule D) (s : Planner D)
      → (sch.id ≡ id → t ≤ sch.next_run_at)
      → IsSpent id t s
      → IsSpent id t (fire labels initiate_transfer sch s).1
  unfolding fire
  fire-IsSpent sch s k h =
      let p =
        initiate_transfer (or_empty sch.tenant_id) sch.from_wallet sch.to_wallet sch.asset
          sch.amount s.world in
      conclude-IsSpent sch p.0 (record s { world = p.1 }) k h

  claim-found :
      (j : String) (u : ℕ) (s : Planner D)
      → (claim labels j u s).0 ≡ ok true
      → 1 ≤ count (claimable j u) s.schedules
  unfolding claim
  claim-found j u s won = ground arith

  -- A claim that is won in a state where an occurrence is spent is of a later one.
  claim-later :
      (j : String) (u : ℕ) (s : Planner D)
      → IsSpent id t s
      → (claim labels j u s).0 ≡ ok true
      → j ≡ id
      → t ≤ u
  claim-later j u s h won e =
      let found = claim-found j u s won in
      let found' : 1 ≤ count (claimable id u) s.schedules =
        subst (λ i. 1 ≤ count (claimable {D = D} i u) s.schedules) e found in
      omega (arith, claimable-later id t u s.schedules h found')

  run_one-IsSpent :
      (sch : Schedule D) (s : Planner D)
      → IsSpent id t s
      → IsSpent id t (run_one labels initiate_transfer sch s).1
  unfolding run_one after_claim
  run_one-IsSpent sch s h =
      outcome (claim labels sch.id sch.next_run_at s) (claim-IsSpent sch.id sch.next_run_at s h)
        (claim-later sch.id sch.next_run_at s h)
    where
      outcome :
          (p : Result Bool × Planner D)
          → IsSpent id t p.1
          → (p.0 ≡ ok true → sch.id ≡ id → t ≤ sch.next_run_at)
          → IsSpent id t (after_claim labels initiate_transfer sch p.0 p.1).1
      outcome (ok true, s') h k = fire-IsSpent sch s' (k refl) h
      outcome (ok false, s') h k = h
      outcome (err e, s') h k = h

  run_all-IsSpent :
      (runs : List (Schedule D)) (s : Planner D)
      → IsSpent id t s
      → IsSpent id t (run_all labels initiate_transfer runs s).1
  unfolding run_all
  run_all-IsSpent [] s h = h
  run_all-IsSpent (sch ∷ runs) s h =
      continue-holds (λ p. IsSpent id t p.1) (run_one labels initiate_transfer sch s)
        (λ _. run_all labels initiate_transfer runs) (λ e. run_one-IsSpent sch s h)
        (λ _.
          run_all-IsSpent runs (run_one labels initiate_transfer sch s).1 (run_one-IsSpent sch s h))

  run_all_after :
      (sch : Schedule D) (runs : List (Schedule D)) (s : Planner D)
      → IsSpent id t (run_one labels initiate_transfer sch s).1
      → IsSpent id t (run_all labels initiate_transfer (sch ∷ runs) s).1
  unfolding run_all
  run_all_after sch runs s h =
      continue-holds (λ p. IsSpent id t p.1) (run_one labels initiate_transfer sch s)
        (λ _. run_all labels initiate_transfer runs) (λ e. h)
        (λ _. run_all-IsSpent runs (run_one labels initiate_transfer sch s).1 h)

  -- A claim of a spent occurrence is lost.
  claim-spent : (s : Planner D) → IsSpent id t s → (claim labels id t s).0 ≢ ok true
  claim-spent s h won = omega (arith, claimable-later id t t s.schedules h (claim-found id t s won))

  run_one-spends :
      (sch : Schedule D) (s : Planner D)
      → sch.id ≡ id
      → sch.next_run_at ≡ t
      → count (λ r. r.id == id) s.schedules ≤ 1
      → (claim labels id t s).0 ≡ ok true
      → IsSpent id t (run_one labels initiate_transfer sch s).1
  unfolding run_one after_claim
  run_one-spends sch s e f one won =
      outcome (claim labels sch.id sch.next_run_at s) (rw (e, f) (claim-spends s one won))
    where
      outcome :
          (p : Result Bool × Planner D)
          → IsSpent id t p.1
          → IsSpent id t (after_claim labels initiate_transfer sch p.0 p.1).1
      outcome (ok true, s') h = fire-IsSpent sch s' (λ _. omega (arith, f)) h
      outcome (ok false, s') h = h
      outcome (err e, s') h = h

module _ {D : Type 0} ⦃d : Decimal D⦄ (labels : ScheduleStatus → Bool)
    (initiate_transfer : String → String → String → String → D → Action D (Transaction D)) where
  lost_claim :
      (sch : Schedule D) (s : Planner D)
      → (claim labels sch.id sch.next_run_at s).0 ≢ ok true
      → (run_one labels initiate_transfer sch s).1.world
        ≡ record s.world { faults = rest_faults s.world.faults }
  unfolding run_one after_claim claim
  lost_claim sch s h = ground arith

  -- Once a worker has won the claim of an occurrence of a schedule with a key of its own, no later
  -- run of that occurrence starts a transfer: whatever runs of whatever schedules, from whatever
  -- stale copies, come between, it touches the state of the transfers by one call of the database
  -- only.
  pub occurrence_once :
      (sch : Schedule D) (runs : List (Schedule D)) (s : Planner D)
      → count (λ r. r.id == sch.id) s.schedules ≤ 1
      → (claim labels sch.id sch.next_run_at s).0 ≡ ok true
      → let s' = (run_all labels initiate_transfer (sch ∷ runs) s).1 in
        (run_one labels initiate_transfer sch s').1.world
        ≡ record s'.world { faults = rest_faults s'.world.faults }
  occurrence_once sch runs s one won =
      let s' = (run_all labels initiate_transfer (sch ∷ runs) s).1 in
      let first =
        run_one-spends labels initiate_transfer sch.id sch.next_run_at sch s refl refl one won in
      lost_claim sch s' (
        claim-spent labels initiate_transfer sch.id sch.next_run_at s'
          (run_all_after labels initiate_transfer sch.id sch.next_run_at sch runs s first))
