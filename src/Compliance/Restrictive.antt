-- ===== src/Compliance/Restrictive.antt =====
-- The composite screener gives the most restrictive outcome and fails closed.
use flowx.Prelude.{
  ℕ, ◌≤◌, ◌≡◌, ◌≢◌, refl, sym, ap, ◌∙◌, String, Bool, true, false, List, [], ◌∷◌, ◌++◌, max, arith,
  if◌then◌else◌,
}
use mathlib.Core.List.{append-nil, append_assoc}
use flowx.Prelude.Int.{ℤ, pos, ltb_ℤ}
use flowx.Exec.{ok, err}
use flowx.Domain.{ScreeningRequest, ScreeningDecision}
use flowx.Domain.Status.{ScreeningStatus, clear, severity}
use flowx.World.{World}
use flowx.Compliance.Screener.{
  Screener, clear_decision, or_hold, failed_screen, combine, screen_from, screen_composite,
}

-- What each screener contributes, in order: its decision, or the hold that stands for its error.
module _ {D : Type 0} where
  abbrev pub contributions :
      List (Screener D) → ScreeningRequest D → World D → List ScreeningDecision
  contributions [] req w = []
  contributions (s ∷ ss) req w =
      let (r, w') = s.screen req w in or_hold s.name r ∷ contributions ss req w'

  -- Whether some screener returns an error.
  abbrev pub some_error : List (Screener D) → ScreeningRequest D → World D → Bool
  some_error [] req w = false
  some_error (s ∷ ss) req w =
      let (r, w') = s.screen req w in
      let later = some_error ss req w' in elim r [ ok res ↦ later | err e ↦ true ]

abbrev pub worst : List ScreeningDecision → ℕ
worst [] = 0
worst (c ∷ cs) = max (severity c.status) (worst cs)

-- The highest score, if it is above `m`.
abbrev pub top_score : ℤ → List ScreeningDecision → ℤ
top_score m [] = m
top_score m (c ∷ cs) = top_score (if ltb_ℤ m c.risk_score then c.risk_score else m) cs

abbrev pub all_rules : List ScreeningDecision → List String
all_rules [] = []
all_rules (c ∷ cs) = c.rules_fired ++ all_rules cs

-- A decision that sums up the contributions, on top of what the loop began with.
record SumsUp (out : ScreeningDecision) (cs : List ScreeningDecision) (res : ScreeningDecision)
    : Type 0 where
  status : severity res.status ≡ max (severity out.status) (worst cs)
  score : res.risk_score ≡ top_score out.risk_score cs
  rules : res.rules_fired ≡ out.rules_fired ++ all_rules cs

combine-SumsUp :
    (out c res : ScreeningDecision) (cs : List ScreeningDecision)
    → SumsUp (combine out c) cs res
    → SumsUp out (c ∷ cs) res
unfolding combine severity
combine-SumsUp out c res cs h = record {
  status = ground (arith, h.status);
  score = h.score ∙ ap (λ m. top_score m cs) risk;
  rules = ground (arith, h.rules, append_assoc out.rules_fired c.rules_fired (all_rules cs));
}
  where
    risk :
        (combine out c).risk_score
        ≡ (if ltb_ℤ out.risk_score c.risk_score then c.risk_score else out.risk_score)
    risk = ground arith

severity_clear : (s : ScreeningStatus) → s ≡ clear → severity s ≡ 0
unfolding severity
severity_clear s h = ground arith

module _ {D : Type 0} where
  screen_from-SumsUp :
      (ss : List (Screener D)) (req : ScreeningRequest D) (out : ScreeningDecision) (w : World D)
      → (res : ScreeningDecision) × ((screen_from ss req out w).0 ≡ ok res)
        × SumsUp out (contributions ss req w) res
  unfolding screen_from
  screen_from-SumsUp [] req out w =
      (out, refl, record { status = omega arith; score = refl; rules = sym (append-nil _) })
  screen_from-SumsUp (s ∷ ss) req out w =
      let (r, w') = s.screen req w in
      let c = or_hold s.name r in
      let (res, returns, sums) = screen_from-SumsUp ss req (combine out c) w' in
      (res, returns, combine-SumsUp out c res (contributions ss req w') sums)

  -- The composite screener always returns a decision: its status is as severe as the most severe
  -- of what the screeners contribute, where an error contributes a hold; its score is their highest
  -- score; its rules are all of theirs, in order.
  pub screen_composite_lem :
      (ss : List (Screener D)) (req : ScreeningRequest D) (w : World D)
      → (res : ScreeningDecision) × ((screen_composite ss req w).0 ≡ ok res)
        × (severity res.status ≡ worst (contributions ss req w))
        × (res.risk_score ≡ top_score (pos 0) (contributions ss req w))
        × (res.rules_fired ≡ all_rules (contributions ss req w))
  unfolding screen_composite
  screen_composite_lem ss req w =
      let (res, returns, sums) = screen_from-SumsUp ss req clear_decision w in
      (res, returns, omega (arith, sums.status, severity_clear clear refl), sums.score, sums.rules)

  some_error-worst :
      (ss : List (Screener D)) (req : ScreeningRequest D) (w : World D)
      → some_error ss req w ≡ true
      → 1 ≤ worst (contributions ss req w)
  unfolding severity failed_screen
  some_error-worst [] req w h = cc
  some_error-worst (s ∷ ss) req w h = ground (arith, some_error-worst ss req (s.screen req w).1)

  -- Where some screener returns an error, the composite decision is not `clear`.
  pub fail_closed :
      (ss : List (Screener D)) (req : ScreeningRequest D) (w : World D)
      → some_error ss req w ≡ true
      → (res : ScreeningDecision) × ((screen_composite ss req w).0 ≡ ok res) × (res.status ≢ clear)
  fail_closed ss req w h =
      let (res, returns, status, _, _) = screen_composite_lem ss req w in
      (
        res,
        returns,
        λ e. absurd (omega (arith, some_error-worst ss req w h, severity_clear res.status e)),
      )
