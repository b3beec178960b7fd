-- ===== src/Compliance/Velocity/Holding.antt =====
-- When the velocity screener holds a transfer.
use flowx.Prelude.{
  ◌+◌, ◌-◌, ◌≡◌, Bool, true, false, not, ◌&&◌, ◌||◌, List, [], ◌∷◌, ◌++◌, arith, ltb, leb, ◌==◌,
  string_eq, count, if◌then◌else◌,
}
use flowx.Prelude.Int.{pos}
use flowx.Decimal.{Decimal}
use flowx.Exec.{Result, ok, err}
use flowx.Domain.{ScreeningRequest, ScreeningDecision}
use flowx.Domain.Status.{hold}
use flowx.World.{World}
use flowx.Compliance.Velocity.{
  VelocityConfig, by_org, to_destination, inbound, sum_where, count_transfers_by_org_since,
  aggregate_transfers_to_destination_since, has_inbound_transfer_since, is_structuring, Fired,
  burst_rule, structuring_rule, round_trip_rule, velocity_decision, exempt, screen_velocity,
}

abbrev pub holds : Result ScreeningDecision → Bool
holds (err e) = false
holds (ok x) = elim x.status [ hold ↦ true | _ ↦ false ]

-- A world in which every query succeeds.
abbrev pub quiet : {D : Type 0} → World D → World D
quiet w = record w { faults = [] }

abbrev when : {A : Type 0} → Bool → A → List A
when b x = if b then x ∷ [] else []

module _ {D : Type 0} ⦃d : Decimal D⦄ (cfg : VelocityConfig D) (req : ScreeningRequest D) where
  -- More transfers of the organisation in the window than are allowed, with this one.
  abbrev pub is_burst : World D → Bool
  is_burst w =
      not (req.org_id == "")
      && ltb cfg.max_transfers (count (by_org req.org_id (w.now - cfg.window)) w.rows + 1)

  abbrev burst_fired : World D → Fired
  burst_fired w = (
    "velocity_burst",
    (cfg.burst_text (count (by_org req.org_id (w.now - cfg.window)) w.rows + 1), pos 60),
  )

  -- Enough transfers to one destination, with a total that is just below a round number.
  abbrev pub is_structured : World D → Bool
  is_structured w =
      let p = to_destination req.org_id req.to_wallet_id (w.now - cfg.structuring_window) in
      not (req.to_wallet_id == "")
      && leb cfg.structuring_min_count (count p w.rows + 1)
      && is_structuring cfg (d.add (sum_where p w.rows) req.amount)

  abbrev structured_fired : World D → Fired
  structured_fired w =
      let p = to_destination req.org_id req.to_wallet_id (w.now - cfg.structuring_window) in
      (
        "structuring",
        (cfg.structuring_text (count p w.rows + 1) (d.add (sum_where p w.rows) req.amount), pos 70),
      )

  -- A transfer the other way in the window.
  abbrev pub is_round_trip : World D → Bool
  is_round_trip w =
      not (req.from_wallet_id == "")
      && not (req.to_wallet_id == "")
      && ltb 0 (
          count (inbound req.from_wallet_id req.to_wallet_id (w.now - cfg.round_trip_window))
            w.rows)

  burst_lem :
      (w : World D)
      → burst_rule cfg req (quiet w) ≡ (ok (when (is_burst w) (burst_fired w)), quiet w)
  unfolding burst_rule count_transfers_by_org_since
  burst_lem w = ground arith

  structured_lem :
      (w : World D)
      → structuring_rule cfg req (quiet w)
        ≡ (ok (when (is_structured w) (structured_fired w)), quiet w)
  unfolding structuring_rule aggregate_transfers_to_destination_since
  structured_lem w = ground arith

  round_trip_lem :
      (w : World D)
      → round_trip_rule cfg req (quiet w)
        ≡ (ok (when (is_round_trip w) ("round_trip", (cfg.round_trip_text, pos 55))), quiet w)
  unfolding round_trip_rule has_inbound_transfer_since
  round_trip_lem w = ground arith

  decided :
      (a b c : Bool) (x y z : Fired)
      → holds (ok (velocity_decision cfg (when a x ++ when b y ++ when c z))) ≡ (a || b || c)
  unfolding velocity_decision
  decided a b c x y z = ground arith

  -- Where no query fails, the velocity screener holds a transfer exactly if the platform's wallet
  -- takes no part in it and one of the three holds of the rows: too many transfers of the
  -- organisation in the window, enough to one destination that add up to just below a round
  -- number, or a transfer the other way.
  pub velocity_holds :
      (w : World D)
      → holds (screen_velocity cfg req (quiet w)).0
        ≡ (not (exempt cfg req) && (is_burst w || is_structured w || is_round_trip w))
  unfolding screen_velocity
  velocity_holds w = grind (
    arith,
    burst_lem w,
    structured_lem w,
    round_trip_lem w,
    decided (is_burst w) (is_structured w) (is_round_trip w) (burst_fired w) (structured_fired w)
        ("round_trip", (cfg.round_trip_text, pos 55)),
  )
