-- ===== src/Compliance/Screener.antt =====
-- internal/compliance/screener.go: `CompositeScreener`.
use flowx.Prelude.{String, List, [], ◌∷◌, ◌++◌, ltb, concat, if◌then◌else◌}
use flowx.Prelude.Int.{pos, ltb_ℤ}
use flowx.Exec.{Result, ok, err, pure, ◌>>=◌}
use flowx.Domain.{ScreeningRequest, ScreeningDecision}
use flowx.Domain.Status.{clear, hold, severity}
use flowx.World.{Action}

-- The interface `Screener`.
pub record Screener (D : Type 0) : Type 0 where
  pub name : String
  pub screen : ScreeningRequest D → Action D ScreeningDecision

abbrev pub clear_decision : ScreeningDecision
clear_decision = record {
  status = clear;
  rules_fired = [];
  reason = "";
  risk_score = pos 0;
  matched_entity = "";
  block_id = "";
}

-- What stands for the result of a screener that fails.
unfoldable pub failed_screen : String → ScreeningDecision
failed_screen name = record {
  status = hold;
  rules_fired = concat "screener_error:" name ∷ [];
  reason = concat "screening could not be completed for " name;
  risk_score = pos 50;
  matched_entity = "";
  block_id = "";
}

-- The rest of the loop's body: the rules add up, the score rises, and a more severe result takes
-- over the status with its reason and entity.
unfoldable pub combine : ScreeningDecision → ScreeningDecision → ScreeningDecision
unfolding severity
combine out res =
    let out' : ScreeningDecision = record out {
      rules_fired = out.rules_fired ++ res.rules_fired;
      risk_score = if ltb_ℤ out.risk_score res.risk_score then res.risk_score else out.risk_score;
    } in
    if ltb (severity out.status) (severity res.status)
    then record out' {
      status = res.status;
      reason = res.reason;
      matched_entity = res.matched_entity;
    }
    else out'

-- `res`, after the error check.
abbrev pub or_hold : String → Result ScreeningDecision → ScreeningDecision
or_hold name (ok res) = res
or_hold name (err e) = failed_screen name

module _ {D : Type 0} where
  -- One screener, whose error becomes a hold.
  unfoldable pub screen_or_hold : Screener D → ScreeningRequest D → Action D ScreeningDecision
  unfolding failed_screen
  screen_or_hold s req w = let (r, w') = s.screen req w in (ok (or_hold s.name r), w')

  -- The loop of `Screen`.
  unfoldable pub screen_from :
      List (Screener D) → ScreeningRequest D → ScreeningDecision → Action D ScreeningDecision
  unfolding screen_or_hold combine
  screen_from [] req out = pure out
  screen_from (s ∷ ss) req out = do res ← screen_or_hold s req; screen_from ss req (combine out res)

  -- `CompositeScreener.Screen`
  unfoldable pub screen_composite :
      List (Screener D) → ScreeningRequest D → Action D ScreeningDecision
  unfolding screen_from
  screen_composite ss req = screen_from ss req clear_decision

  unfoldable pub composite : List (Screener D) → Screener D
  unfolding screen_composite
  composite ss = record { name = "composite"; screen = screen_composite ss }
