-- ===== src/Examples/Recurring.antt =====
-- The theorems on schedules.
use flowx.Prelude.{◌≡◌, refl, String, Bool, true, some, none, [], ◌∷◌, arith, string_eq, nat_eq}
use flowx.Prelude.Int.{ℤ, pos}
use flowx.Decimal.Scaled.{scaled}
use flowx.Domain.{Transaction}
use flowx.Domain.Recurring.{ScheduleStatus, active, Schedule, monthly, weekly, schedule_status_eq}
use flowx.World.{Action, rest_faults}
use flowx.Transfer.Service.{initiate_transfer}
use flowx.Schedule.{Planner, claim}
use flowx.Schedule.Worker.{run_one, run_all, handle_run_schedules}
use flowx.Schedule.Claims.{occurrence_once}
use flowx.Schedule.Labels.{Untouched, migrated_labels, labels_stop_runs}
use flowx.Schedule.Roll.{FirstAfter, roll_forward_lem}
use flowx.Schedule.Service.{roll_forward}
use flowx.Examples.{world}
use flowx.Examples.Moving.{services}

abbrev rent : Schedule ℤ
rent = record {
  id = "s1";
  tenant_id = some "acme";
  from_wallet = "w1";
  to_wallet = "w2";
  asset = "TXDC";
  amount = pos 100;
  frequency = monthly;
  next_run_at = 900;
  end_at = none;
  status = active;
  created_at = 5;
  updated_at = 5;
}

abbrev all_labels : ScheduleStatus → Bool
all_labels _ = true

abbrev start : String → String → String → String → ℤ → Action ℤ (Transaction ℤ)
start tenant = initiate_transfer services (record { tenant = tenant; user = "" })

abbrev planner : Planner ℤ
planner = record { schedules = rent ∷ []; world = world [] }

occurrence_once_example :
    let s' = (run_all all_labels start (rent ∷ rent ∷ []) planner).1 in
    (run_one all_labels start rent s').1.world
    ≡ record s'.world { faults = rest_faults s'.world.faults }
unfolding claim
occurrence_once_example =
    occurrence_once all_labels start rent (rent ∷ []) planner (omega arith) refl

labels_stop_runs_example : Untouched planner (handle_run_schedules migrated_labels start planner).1
labels_stop_runs_example = labels_stop_runs start planner

roll_forward_example : FirstAfter weekly 2_000_000 900 (roll_forward weekly 2_000_000 900)
roll_forward_example = roll_forward_lem weekly 2_000_000 900
