-- ===== src/Schedule/Roll.antt =====
-- The loop that rolls a schedule forward: it ends, at the first occurrence after the present.
use flowx.Prelude.{ℕ, zero, suc, ◌+◌, ◌≤◌, ◌<◌, ◌≡◌, refl, inl, inr, ltb, arith, Bool-cases}
use flowx.Calendar.Later.{add_days_later, add_month_later}
use flowx.Domain.Recurring.{ScheduleFrequency, daily, weekly, monthly}
use flowx.Schedule.{add_interval}
use flowx.Schedule.Service.{roll_loop, roll_forward}

-- The next occurrence is later.
pub add_interval_later : (t : ℕ) (freq : ScheduleFrequency) → t < add_interval t freq
unfolding add_interval
add_interval_later t daily = add_days_later 1 t (omega arith)
add_interval_later t weekly = add_days_later 7 t (omega arith)
add_interval_later t monthly = add_month_later t

-- `k` intervals after a time
abbrev pub occurrence : ScheduleFrequency → ℕ → ℕ → ℕ
occurrence freq t zero = t
occurrence freq t (suc k) = occurrence freq (add_interval t freq) k

-- No occurrence from `t` on, of the first `k`, is after `now`.
abbrev pub NonePast : ScheduleFrequency → ℕ → ℕ → ℕ → Type 0
NonePast freq now t zero = Unit
NonePast freq now t (suc k) = (t ≤ now) × NonePast freq now (add_interval t freq) k

abbrev pub FirstAfter : ScheduleFrequency → ℕ → ℕ → ℕ → Type 0
FirstAfter freq now t r = (k : ℕ) × (r ≡ occurrence freq t k) × (now < r) × NonePast freq now t k

roll_loop-FirstAfter :
    (fuel : ℕ) (freq : ScheduleFrequency) (now t : ℕ)
    → now < t + fuel
    → FirstAfter freq now t (roll_loop fuel freq now t)
unfolding roll_loop
roll_loop-FirstAfter zero freq now t h = (0, refl, omega arith, tt)
roll_loop-FirstAfter (suc fuel) freq now t h = elim (Bool-cases (ltb now t)) [
  | inl e ↦ rw e (0, refl, ground arith, tt)
  | inr e ↦
      let next =
        roll_loop-FirstAfter fuel freq now (add_interval t freq)
          (omega (arith, add_interval_later t freq)) in
      rw e (suc next.0, next.1, next.2, (ground arith, next.3))
]

-- The loop that rolls a resumed schedule forward ends, at the first of its occurrences, counted
-- from the one that it stands at, that is after the present.
pub roll_forward_lem :
    (freq : ScheduleFrequency) (now t : ℕ) → FirstAfter freq now t (roll_forward freq now t)
unfolding roll_forward
roll_forward_lem freq now t = roll_loop-FirstAfter (suc now) freq now t (omega arith)
