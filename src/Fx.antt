-- ===== src/Fx.antt =====
-- internal/fx: rates from providers behind a cache, quotes with a time to live, and conversions.
-- Redis is a list of keys with their values and deadlines; JSON texts are the values themselves.
pub mod Rates
pub mod Quotes
pub mod Once
pub mod Stored
use flowx.Prelude.{
  ℕ, ◌+◌, String, Bool, not, ◌&&◌, Option, none, some, List, [], ◌∷◌, ◌==◌, string_eq, ltb, map,
  if◌then◌else◌,
}
use flowx.Prelude.Int.{ℤ}
use flowx.Exec.{Exec, ok, err, call_failed}
use flowx.Table.{select_where, query_row}
use flowx.Domain.{RateResponse, Conversion}
use flowx.World.{World, Action, next_fault, rest_faults}

-- fx.Quote
pub record Quote (D : Type 0) : Type 0 where
  pub id : String
  pub org_id : String
  pub from_asset : String
  pub to_asset : String
  pub from_amount : D
  pub to_amount : D
  pub rate : D
  pub fee : D
  pub expires_at : ℕ
  pub used : Bool

-- A key of Redis: it is gone from its deadline on.
pub record Entry (A : Type 0) : Type 0 where
  pub key : String
  pub value : A
  pub deadline : ℕ

module _ {A : Type 0} where
  abbrev pub live : String → ℕ → Entry A → Bool
  live key now e = (e.key == key) && ltb now e.deadline

  -- GET
  unfoldable pub kv_get : String → ℕ → List (Entry A) → Option (Entry A)
  unfolding query_row
  kv_get key now entries = query_row (live key now) entries

  -- SET with a time to live
  unfoldable pub kv_set : Entry A → List (Entry A) → List (Entry A)
  unfolding select_where
  kv_set e entries = e ∷ select_where (λ x. not (x.key == e.key)) entries

-- A row of `fx_quotes`.
pub record QuoteAudit (D : Type 0) : Type 0 where
  pub quote : Quote D
  pub used : Bool
  pub conversion_id : Option String
  pub created_at : ℕ

pub record Market (D : Type 0) : Type 0 where
  pub rates : List (Entry (RateResponse D))
  pub quotes : List (Entry (Quote D))
  pub active_pairs : List String
  pub conversions : List (Conversion D)
  pub audits : List (QuoteAudit D)
  -- the transfers from the treasury: the receiver and the amount in wei, latest first
  pub paid : List (String × ℤ)
  pub world : World D

abbrev pub Trading : Type 0 → Type 0 → Type 0
Trading D A = Exec (Market D) A

module _ {D A : Type 0} where
  abbrev pub on_world : Action D A → Trading D A
  on_world m s = let (r, w) = m s.world in (r, record s { world = w })

  -- A call of Redis, the database or the chain that succeeds, or fails and does nothing.
  abbrev pub attempt : Trading D A → Trading D A
  attempt m s =
      let s' : Market D = record s {
        world = record s.world { faults = rest_faults s.world.faults };
      } in
      if next_fault s.world.faults then (err call_failed, s') else m s'
