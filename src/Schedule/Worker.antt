-- ===== src/Schedule/Worker.antt =====
-- internal/schedule/worker.go: every due schedule is claimed, its transfer is started, and its next
-- run is written.
use flowx.Prelude.{
  ℕ, String, Bool, true, false, none, some, List, [], ◌∷◌, ltb, or_empty, if◌then◌else◌,
}
use flowx.Decimal.{Decimal}
use flowx.Exec.{Result, ok, err, pure, gets, logged, outcome_of, ◌>>=◌, ◌>>◌}
use flowx.Domain.{Transaction}
use flowx.Domain.Recurring.{ScheduleStatus, active, failed, completed, Schedule}
use flowx.World.{Action}
use flowx.Schedule.{Planning, on_world, add_interval, list_due, update, claim}

-- How a schedule stands after its transfer was started.
unfoldable pub advanced : {D : Type 0} → Schedule D → ℕ → Schedule D
advanced sch now =
    let next = add_interval sch.next_run_at sch.frequency in
    let past_end : Bool = elim sch.end_at [ none ↦ false | some e ↦ ltb e next ] in
    record sch {
      next_run_at = next;
      status = if past_end then completed else active;
      updated_at = now;
    }

-- The transfer service, by the tenant that it runs for.
module _ {D : Type 0} ⦃d : Decimal D⦄ (labels : ScheduleStatus → Bool)
    (initiate_transfer : String → String → String → String → D → Action D (Transaction D)) where
  -- what `runOne` does after a claim that was won, by how the transfer ended
  unfoldable pub conclude : Schedule D → Result (Transaction D) → Planning D (Unit {0})
  unfolding advanced
  conclude sch (ok tx) = do
    now ← gets (λ s. s.world.now)
    logged (update labels "" (advanced sch now))
  conclude sch (err e) = do
    now ← gets (λ s. s.world.now)
    logged (update labels "" (record sch { status = failed; updated_at = now }))

  unfoldable pub fire : Schedule D → Planning D (Unit {0})
  fire sch = do
    r ← outcome_of (
        on_world (
          initiate_transfer (or_empty sch.tenant_id) sch.from_wallet sch.to_wallet sch.asset
            sch.amount))
    conclude sch r

  -- what follows the call of `Claim`: its error is logged
  unfoldable pub after_claim : Schedule D → Result Bool → Planning D (Unit {0})
  after_claim sch (ok true) = fire sch
  after_claim sch (ok false) = pure tt
  after_claim sch (err e) = pure tt

  -- `runOne`
  unfoldable pub run_one : Schedule D → Planning D (Unit {0})
  run_one sch = do r ← outcome_of (claim labels sch.id sch.next_run_at); after_claim sch r

  unfoldable pub run_all : List (Schedule D) → Planning D (Unit {0})
  run_all [] = pure tt
  run_all (sch ∷ rest) = do run_one sch; run_all rest

  -- `HandleRunSchedules`
  unfoldable pub handle_run_schedules : Planning D (Unit {0})
  handle_run_schedules = do now ← gets (λ s. s.world.now); due ← list_due now; run_all due
