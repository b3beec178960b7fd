-- ===== src/Schedule/Service.antt =====
-- internal/schedule/service.go: schedules are created, changed and cancelled.
use flowx.Prelude.{
  ℕ, zero, suc, String, Bool, Option, none, some, ltb, ◌==◌, string_eq, nullable, if◌then◌else◌,
}
use flowx.Decimal.{Decimal}
use flowx.Exec.{self_transfer, pure, raise, gets, ◌>>=◌, ◌>>◌}
use flowx.Domain.{Wallet}
use flowx.Domain.Recurring.{
  ScheduleFrequency, ScheduleStatus, active, cancelled, Schedule, schedule_status_eq,
}
use flowx.World.{Action, draw}
use flowx.Schedule.{Planning, on_world, add_interval, get_by_id, create, update}

pub record CreateInput (D : Type 0) : Type 0 where
  pub from_wallet_id : String
  pub to_wallet_id : String
  pub asset : String
  pub amount : D
  pub frequency : ScheduleFrequency
  pub start_at : ℕ
  pub end_at : Option ℕ

pub record UpdateInput (D : Type 0) : Type 0 where
  pub status : Option ScheduleStatus
  pub amount : Option D
  pub frequency : Option ScheduleFrequency
  pub end_at : Option ℕ

-- `for !sch.NextRunAt.After(now)`, with as many turns as there are seconds
unfoldable pub roll_loop : ℕ → ScheduleFrequency → ℕ → ℕ → ℕ
roll_loop zero freq now t = t
roll_loop (suc fuel) freq now t =
    let rest = roll_loop fuel freq now (add_interval t freq) in if ltb now t then t else rest

unfoldable pub roll_forward : ScheduleFrequency → ℕ → ℕ → ℕ
unfolding roll_loop
roll_forward freq now t = roll_loop (suc now) freq now t

abbrev or_else {ℓ} : {A : Type ℓ} → Option A → A → A
or_else none a = a
or_else (some b) a = b

-- the part of `Update` on the status
unfoldable pub set_status : {D : Type 0} → Option ScheduleStatus → ℕ → Schedule D → Schedule D
set_status none now sch = sch
set_status (some status) now sch =
    if status == active
    then record sch {
      status = status;
      next_run_at = roll_forward sch.frequency now sch.next_run_at;
    }
    else record sch { status = status }

-- the fields that `Update` sets
unfoldable pub changed : {D : Type 0} → UpdateInput D → ℕ → Schedule D → Schedule D
unfolding set_status
changed q now sch =
    let sch' : Schedule _ = set_status q.status now (record sch {
      amount = or_else q.amount sch.amount;
      frequency = or_else q.frequency sch.frequency;
      end_at = elim q.end_at [ none ↦ sch.end_at | some e ↦ some e ];
    }) in
    record sch' { updated_at = now }

module _ {D : Type 0} ⦃d : Decimal D⦄ (labels : ScheduleStatus → Bool) (tenant : String) where
  -- `Create`
  unfoldable pub create_schedule :
      (ℕ → String) → (String → Action D Wallet) → CreateInput D → Planning D (Schedule D)
  create_schedule uuid find_wallet q =
      if q.from_wallet_id == q.to_wallet_id then raise self_transfer else (do
        on_world (find_wallet q.from_wallet_id)
        on_world (find_wallet q.to_wallet_id)
        now ← gets (λ s. s.world.now)
        id ← on_world (draw uuid)
        let sch : Schedule D = record {
          id = id;
          tenant_id = nullable tenant;
          from_wallet = q.from_wallet_id;
          to_wallet = q.to_wallet_id;
          asset = q.asset;
          amount = q.amount;
          frequency = q.frequency;
          next_run_at = q.start_at;
          end_at = q.end_at;
          status = active;
          created_at = now;
          updated_at = now;
        }
        create labels tenant sch
        pure sch)

  -- `Update`
  unfoldable pub update_schedule : String → UpdateInput D → Planning D (Schedule D)
  update_schedule id q = do
    sch ← get_by_id tenant id
    now ← gets (λ s. s.world.now)
    update labels tenant (changed q now sch)
    pure (changed q now sch)

  -- `Cancel`
  unfoldable pub cancel : String → Planning D (Unit {0})
  cancel id = do
    sch ← get_by_id tenant id
    now ← gets (λ s. s.world.now)
    update labels tenant (record sch { status = cancelled; updated_at = now })
