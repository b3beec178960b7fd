-- ===== src/Compliance/Velocity.antt =====
-- internal/compliance/velocity.go, and its three queries in internal/postgres/compliance_repo.go.
pub mod Holding
use flowx.Prelude.{
  ℕ, suc, ◌+◌, ◌-◌, String, Bool, true, false, not, ◌&&◌, ◌||◌, Option, none, some, List, [], ◌∷◌,
  ◌++◌, ltb, leb, ◌==◌, string_eq, has, count, if◌then◌else◌, concat,
}
use flowx.Prelude.Int.{ℤ, pos, ltb_ℤ}
use flowx.Decimal.{Decimal}
use flowx.Exec.{Result, ok, err, pure, gets, ◌>>=◌, ◌>>◌}
use flowx.Domain.{ScreeningRequest, ScreeningDecision}
use flowx.Domain.Status.{pending, submitted, confirmed, transfer, hold, tx_status_eq, tx_type_eq}
use flowx.World.{TxRow, World, Action, attempt}
use flowx.Compliance.Screener.{clear_decision}

-- `VelocityConfig`, as `NewVelocityScreener` leaves it, with windows in seconds; and the texts that
-- `fmt.Sprintf` makes for the reasons.
pub record VelocityConfig (D : Type 0) : Type 0 where
  pub window : ℕ
  pub max_transfers : ℕ
  pub structuring_window : ℕ
  pub structuring_min_count : ℕ
  pub structuring_unit : D
  pub structuring_tolerance : D
  pub round_trip_window : ℕ
  pub platform_wallet_id : String
  pub burst_text : ℕ → String
  pub structuring_text : ℕ → D → String
  pub round_trip_text : String

module _ {D : Type 0} ⦃d : Decimal D⦄ where
  abbrev pub by_org : String → ℕ → TxRow D → Bool
  by_org org since r = has r.tenant_id org && r.tx_type == transfer && leb since r.created_at

  -- `CountTransfersByOrgSince`
  unfoldable pub count_transfers_by_org_since : String → ℕ → Action D ℕ
  count_transfers_by_org_since org since = attempt (gets (λ w. count (by_org org since) w.rows))

  abbrev pub to_destination : String → String → ℕ → TxRow D → Bool
  to_destination org to since r =
      has r.to_wallet to
      && r.tx_type == transfer
      && leb since r.created_at
      && (if org == "" then true else has r.tenant_id org)

  unfoldable pub sum_where : (TxRow D → Bool) → List (TxRow D) → D
  sum_where p [] = d.zero
  sum_where p (r ∷ rs) = let rest = sum_where p rs in if p r then d.add r.amount rest else rest

  -- `AggregateTransfersToDestinationSince`
  unfoldable pub aggregate_transfers_to_destination_since : String → String → ℕ → Action D (ℕ × D)
  unfolding sum_where
  aggregate_transfers_to_destination_since org to since = attempt (
      gets (λ w. (
        count (to_destination org to since) w.rows,
        sum_where (to_destination org to since) w.rows,
      )))

  abbrev pub inbound : String → String → ℕ → TxRow D → Bool
  inbound wallet counterparty since r =
      has r.to_wallet wallet
      && has r.from_wallet counterparty
      && leb since r.created_at
      && (r.status == pending || r.status == submitted || r.status == confirmed)

  -- `HasInboundTransferSince`
  unfoldable pub has_inbound_transfer_since : String → String → ℕ → Action D Bool
  has_inbound_transfer_since wallet counterparty since =
      attempt (gets (λ w. ltb 0 (count (inbound wallet counterparty since) w.rows)))

-- A rule that fired: its name, its reason and its score.
abbrev pub Fired : Type 0
Fired = String × (String × ℤ)

module _ {D : Type 0} ⦃d : Decimal D⦄ (cfg : VelocityConfig D) where
  -- `isStructuring`
  unfoldable pub is_structuring : D → Bool
  is_structuring total =
      let unit = cfg.structuring_unit in
      let next = d.mul (d.add (d.floor (d.div total unit)) (d.from_int (pos 1))) unit in
      if d.leq total d.zero
      then false
      else if d.leq next d.zero
      then false
      else d.leq (d.div (d.sub next total) next) cfg.structuring_tolerance

  -- the three rules, each with nothing or what it appends
  unfoldable pub burst_rule : ScreeningRequest D → Action D (List Fired)
  burst_rule req = do
    now ← gets (λ w. w.now)
    (if req.org_id == "" then pure [] else (do
      n ← count_transfers_by_org_since req.org_id (now - cfg.window)
      pure (
          if ltb cfg.max_transfers (n + 1)
          then ("velocity_burst", (cfg.burst_text (n + 1), pos 60)) ∷ []
          else [])))

  unfoldable pub structuring_rule : ScreeningRequest D → Action D (List Fired)
  structuring_rule req = do
    now ← gets (λ w. w.now)
    (if req.to_wallet_id == "" then pure [] else (do
      (n, sum) ←
          aggregate_transfers_to_destination_since req.org_id req.to_wallet_id
            (now - cfg.structuring_window)
      let total = d.add sum req.amount
      pure (
          if leb cfg.structuring_min_count (n + 1) && is_structuring total
          then ("structuring", (cfg.structuring_text (n + 1) total, pos 70)) ∷ []
          else [])))

  unfoldable pub round_trip_rule : ScreeningRequest D → Action D (List Fired)
  round_trip_rule req = do
    now ← gets (λ w. w.now)
    (if not (req.from_wallet_id == "") && not (req.to_wallet_id == "")
        then (do
          found ←
              has_inbound_transfer_since req.from_wallet_id req.to_wallet_id
                (now - cfg.round_trip_window)
          pure (if found then ("round_trip", (cfg.round_trip_text, pos 55)) ∷ [] else []))
        else pure [])

  abbrev pub rules_of : List Fired → List String
  rules_of [] = []
  rules_of (f ∷ fs) = f.0 ∷ rules_of fs

  -- `joinReasons`
  abbrev join_reasons : List Fired → String
  join_reasons [] = ""
  join_reasons (f ∷ []) = f.1.0
  join_reasons (f ∷ g ∷ fs) = concat f.1.0 (concat "; " (join_reasons (g ∷ fs)))

  -- `maxInt` over the scores, from 0
  abbrev pub score_of : List Fired → ℤ
  score_of [] = pos 0
  score_of (f ∷ fs) = let rest = score_of fs in if ltb_ℤ rest f.1.1 then f.1.1 else rest

  -- What the rules that fired make of the request.
  unfoldable pub velocity_decision : List Fired → ScreeningDecision
  velocity_decision [] = clear_decision
  velocity_decision (f ∷ fs) = record {
    status = hold;
    rules_fired = rules_of (f ∷ fs);
    reason = join_reasons (f ∷ fs);
    risk_score = score_of (f ∷ fs);
    matched_entity = "";
    block_id = "";
  }

  abbrev pub exempt : ScreeningRequest D → Bool
  exempt req =
      not (cfg.platform_wallet_id == "")
      && (req.from_wallet_id == cfg.platform_wallet_id
          || req.to_wallet_id == cfg.platform_wallet_id)

  -- `Screen`
  unfoldable pub screen_velocity : ScreeningRequest D → Action D ScreeningDecision
  screen_velocity req = if exempt req then pure clear_decision else (do
    a ← burst_rule req
    b ← structuring_rule req
    c ← round_trip_rule req
    pure (velocity_decision (a ++ b ++ c)))
