-- ===== src/Examples/Velocity.antt =====
-- The theorem on the velocity screener.
use flowx.Prelude.{◌≡◌, refl, true, not, ◌&&◌, ◌||◌, [], ◌∷◌, string_eq}
use flowx.Prelude.Int.{ℤ, pos}
use flowx.Decimal.Scaled.{scaled}
use flowx.Domain.Status.{pending, tx_status_eq}
use flowx.World.{World}
use flowx.Compliance.Velocity.{VelocityConfig, exempt, screen_velocity}
use flowx.Compliance.Velocity.Holding.{
  holds, quiet, is_burst, is_structured, is_round_trip, velocity_holds,
}
use flowx.Examples.{row, world}
use flowx.Examples.Screening.{request}

abbrev config : VelocityConfig ℤ
config = record {
  window = 600;
  max_transfers = 1;
  structuring_window = 86_400;
  structuring_min_count = 3;
  structuring_unit = pos 10_000_000_000;
  structuring_tolerance = pos 500_000;
  round_trip_window = 3600;
  platform_wallet_id = "platform";
  burst_text = λ n. "too many transfers";
  structuring_text = λ n total. "just below a round threshold";
  round_trip_text = "round trip";
}

abbrev recent : World ℤ
recent = world (record (row "t1" pending) { created_at = 900 } ∷ [])

velocity_holds_example : holds (screen_velocity config request (quiet recent)).0 ≡ (
    not (exempt config request)
    && (is_burst config request recent
        || is_structured config request recent
        || is_round_trip config request recent))
velocity_holds_example = velocity_holds config request recent

-- and the second transfer in ten minutes is one too many
recent_burst : is_burst config request recent ≡ true
recent_burst = refl
