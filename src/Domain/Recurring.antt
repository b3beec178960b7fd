-- ===== src/Domain/Recurring.antt =====
-- internal/domain/schedule.go: a transfer that is repeated.
use flowx.Prelude.{ℕ, String, Bool, true, false, Option, Equality, ◌≡◌, ◌↔◌, arith}

pub data ScheduleFrequency : Type 0 where
  daily weekly monthly : ScheduleFrequency

pub data ScheduleStatus : Type 0 where
  active processing failed paused cancelled completed : ScheduleStatus

pub record Schedule (D : Type 0) : Type 0 where
  pub id : String
  pub tenant_id : Option String
  pub from_wallet : String
  pub to_wallet : String
  pub asset : String
  pub amount : D
  pub frequency : ScheduleFrequency
  pub next_run_at : ℕ
  pub end_at : Option ℕ
  pub status : ScheduleStatus
  pub created_at : ℕ
  pub updated_at : ℕ

abbrev pub schedule_status_beq : ScheduleStatus → ScheduleStatus → Bool
schedule_status_beq active active = true
schedule_status_beq processing processing = true
schedule_status_beq failed failed = true
schedule_status_beq paused paused = true
schedule_status_beq cancelled cancelled = true
schedule_status_beq completed completed = true
schedule_status_beq _ _ = false

pub schedule_status_beq_iff : (a b : ScheduleStatus) → (schedule_status_beq a b ≡ true) ↔ (a ≡ b)
schedule_status_beq_iff a b = ground arith

instance abbrev pub schedule_status_eq : Equality ScheduleStatus
schedule_status_eq = record { same = schedule_status_beq; same_iff = schedule_status_beq_iff }
