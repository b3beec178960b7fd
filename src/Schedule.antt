-- ===== src/Schedule.antt =====
-- internal/postgres/schedule_repo.go and the interval of internal/schedule: the table of repeated
-- transfers beside the state of the transfers that they start. Frequencies are the three that the
-- handler and the column's type admit. The labels of the column's status type are a parameter.
pub mod Service
pub mod Worker
pub mod Claims
pub mod Roll
pub mod Labels
use flowx.Prelude.{
  ℕ, suc, String, Bool, not, ◌&&◌, Option, none, some, List, [], ◌∷◌, ◌++◌, ltb, leb, ◌==◌, nat_eq,
  string_eq, count, if◌then◌else◌,
}
use flowx.Calendar.{add_date}
use flowx.Decimal.{Decimal}
use flowx.Exec.{
  Exec, Result, ok, err, call_failed, schedule_not_found, pure, raise, gets, or_raise, ◌>>=◌, ◌>>◌,
}
use flowx.Domain.Recurring.{
  ScheduleFrequency, daily, weekly, monthly, ScheduleStatus, active, processing, Schedule,
  schedule_status_eq,
}
use flowx.Table.{update_where, select_where, query_row}
use flowx.World.{World, Action, next_fault, rest_faults}
use flowx.TxRepo.{in_tenant, nullable_uuid}

-- The schedules, and the state of the transfers.
pub record Planner (D : Type 0) : Type 0 where
  pub schedules : List (Schedule D)
  pub world : World D

-- `AddInterval`
unfoldable pub add_interval : ℕ → ScheduleFrequency → ℕ
add_interval t daily = add_date 0 1 t
add_interval t weekly = add_date 0 7 t
add_interval t monthly = add_date 1 0 t

abbrev pub Planning : Type 0 → Type 0 → Type 0
Planning D A = Exec (Planner D) A

module _ {D : Type 0} where
  -- A call of the other services.
  abbrev pub on_world : {A : Type 0} → Action D A → Planning D A
  on_world m s = let (r, w) = m s.world in (r, record s { world = w })

  -- A call of the database that succeeds, or fails and does nothing.
  abbrev pub attempt : {A : Type 0} → Planning D A → Planning D A
  attempt m s =
      let s' : Planner D = record s {
        world = record s.world { faults = rest_faults s.world.faults };
      } in
      if next_fault s.world.faults then (err call_failed, s') else m s'

  -- A statement that writes a status is refused where the column's type has no such label.
  abbrev pub storing :
      {A : Type 0} → (ScheduleStatus → Bool) → ScheduleStatus → Planning D A → Planning D A
  storing labels status m = if labels status then m else raise call_failed

  abbrev pub put_schedules : List (Schedule D) → Planning D (Unit {0})
  put_schedules rows s = (ok tt, record s { schedules = rows })

  -- `GetByID`
  unfoldable pub get_by_id : String → String → Planning D (Schedule D)
  unfolding query_row
  get_by_id tenant id = attempt (do
    row ← gets (λ s. query_row (λ r. (r.id == id) && in_tenant tenant r.tenant_id) s.schedules)
    or_raise row schedule_not_found)

  -- `List`, without the order
  unfoldable pub list : String → Planning D (List (Schedule D))
  unfolding select_where
  list tenant = attempt (gets (λ s. select_where (λ r. in_tenant tenant r.tenant_id) s.schedules))

  abbrev pub is_due : ℕ → Schedule D → Bool
  is_due now r = (r.status == active) && leb r.next_run_at now

  -- `ListDue`
  unfoldable pub list_due : ℕ → Planning D (List (Schedule D))
  unfolding select_where
  list_due now = attempt (gets (λ s. select_where (is_due now) s.schedules))

  abbrev pub claimable : String → ℕ → Schedule D → Bool
  claimable id expected r = (r.id == id) && (r.status == active) && (r.next_run_at == expected)

module _ {D : Type 0} ⦃d : Decimal D⦄ where
  -- The values of the INSERT: NUMERIC(20, 7) rounds to seven places.
  abbrev pub row_of : String → Schedule D → Schedule D
  row_of tenant sch = record sch {
    tenant_id = if tenant == "" then nullable_uuid sch.tenant_id else some tenant;
    amount = d.round7 sch.amount;
  }

  -- the SET of an UPDATE
  abbrev pub set_row : Schedule D → Schedule D → Schedule D
  set_row sch r = record r {
    amount = d.round7 sch.amount;
    frequency = sch.frequency;
    next_run_at = sch.next_run_at;
    end_at = sch.end_at;
    status = sch.status;
    updated_at = sch.updated_at;
  }

module _ {D : Type 0} ⦃d : Decimal D⦄ (labels : ScheduleStatus → Bool) where
  -- `Create`
  unfoldable pub create : String → Schedule D → Planning D (Unit {0})
  create tenant sch = attempt (
      storing labels sch.status (λ s.
        if ltb 0 (count (λ r. r.id == sch.id) s.schedules)
        then (err call_failed, s)
        else put_schedules (s.schedules ++ row_of tenant sch ∷ []) s))

  -- `Update`: no error where there is no such row
  unfoldable pub update : String → Schedule D → Planning D (Unit {0})
  unfolding update_where
  update tenant sch = attempt (
      storing labels sch.status (λ s.
        put_schedules
          (update_where (λ r. (r.id == sch.id) && in_tenant tenant r.tenant_id) (set_row sch)
            s.schedules)
          s))

  -- `Claim`
  unfoldable pub claim : String → ℕ → Planning D Bool
  unfolding update_where
  claim id expected = attempt (
      storing labels processing (λ s. (
        ok (ltb 0 (count (claimable id expected) s.schedules)),
        record s {
          schedules =
              update_where (claimable id expected)
                (λ r. record r { status = processing; updated_at = s.world.now }) s.schedules;
        },
      )))
