-- ===== src/Schedule/Labels.antt =====
-- The labels that db/migrations/000013_create_batches_and_schedules.up.sql gives the type of the
-- column `status` of `schedules`, which no later migration changes, and what a run does with them.
use flowx.Prelude.{ℕ, ◌≡◌, refl, String, Bool, true, false, List, [], ◌∷◌, arith, ap, ◌∙◌}
use flowx.Decimal.{Decimal}
use flowx.Exec.Keeps.{continue-holds}
use flowx.Domain.{Transaction}
use flowx.Domain.Recurring.{
  ScheduleStatus, active, processing, failed, paused, cancelled, completed, Schedule,
}
use flowx.World.{Action, rest_faults}
use flowx.Schedule.{Planner, claim, list_due}
use flowx.Schedule.Worker.{after_claim, run_one, run_all, handle_run_schedules}

unfoldable pub migrated_labels : ScheduleStatus → Bool
migrated_labels processing = false
migrated_labels failed = false
migrated_labels active = true
migrated_labels paused = true
migrated_labels cancelled = true
migrated_labels completed = true

module _ {D : Type 0} where
  -- The state as it was, but for calls of the database that were made.
  abbrev pub Untouched : Planner D → Planner D → Type 0
  Untouched s s' =
      (faults : List Bool) × (s' ≡ record s { world = record s.world { faults = faults } })

  Untouched-trans : (s t u : Planner D) → Untouched s t → Untouched t u → Untouched s u
  Untouched-trans s t u one two = (
    two.0,
    two.1 ∙ ap (λ (x : Planner D). record x { world = record x.world { faults = two.0 } }) one.1,
  )

module _ {D : Type 0} ⦃d : Decimal D⦄
    (initiate_transfer : String → String → String → String → D → Action D (Transaction D)) where
  run_one-Untouched :
      (sch : Schedule D) (s : Planner D)
      → Untouched s (run_one migrated_labels initiate_transfer sch s).1
  unfolding run_one after_claim claim migrated_labels
  run_one-Untouched sch s = (rest_faults s.world.faults, ground arith)

  list_due-Untouched : (now : ℕ) (s : Planner D) → Untouched s (list_due now s).1
  unfolding list_due
  list_due-Untouched now s = (rest_faults s.world.faults, ground arith)

  run_all-Untouched :
      (runs : List (Schedule D)) (s : Planner D)
      → Untouched s (run_all migrated_labels initiate_transfer runs s).1
  unfolding run_all
  run_all-Untouched [] s = (s.world.faults, refl)
  run_all-Untouched (sch ∷ runs) s =
      let p = run_one migrated_labels initiate_transfer sch s in
      continue-holds (λ p. Untouched s p.1) p (λ _. run_all migrated_labels initiate_transfer runs)
        (λ e. run_one-Untouched sch s)
        (λ _.
          Untouched-trans s p.1 (run_all migrated_labels initiate_transfer runs p.1).1
            (run_one-Untouched sch s) (run_all-Untouched runs p.1))

  -- With the labels of the migrations, which have no `processing`, a run of the due schedules starts
  -- no transfer and changes no schedule: every claim is refused.
  pub labels_stop_runs :
      (s : Planner D) → Untouched s (handle_run_schedules migrated_labels initiate_transfer s).1
  unfolding handle_run_schedules
  labels_stop_runs s =
      let p = list_due s.world.now s in
      continue-holds (λ p. Untouched s p.1) p (run_all migrated_labels initiate_transfer)
        (λ e. list_due-Untouched s.world.now s)
        (λ due.
          Untouched-trans s p.1 (run_all migrated_labels initiate_transfer due p.1).1
            (list_due-Untouched s.world.now s) (run_all-Untouched due p.1))
