-- ===== src/Compliance/Sanctions.antt =====
-- internal/compliance/sanctions.go: the set of sanctioned parties, and the screener that matches a
-- destination against it.
pub mod Matching
use flowx.Prelude.{
  ℕ, suc, ◌+◌, ◌*◌, ◌-◌, ◌≡◌, refl, String, Bool, true, false, not, ◌&&◌, ◌||◌, Option, none, some,
  List, [], ◌∷◌, ◌++◌, ltb, leb, eqb, ◌==◌, string_eq, if◌then◌else◌, map, concat,
}
use flowx.Prelude.Int.{ℤ, pos, ◌-ℤ◌}
use flowx.Exec.{Result, ok, err, sanctions_set_not_loaded, lift}
use flowx.Domain.{ScreeningRequest, ScreeningDecision}
use flowx.Domain.Status.{hold, blocked}
use flowx.World.{Action}
use flowx.Transfer.Address.{codes}
use flowx.Compliance.Levenshtein.{same_text, levenshtein_at_most}
use flowx.Compliance.Screener.{Screener, clear_decision}

-- What Go's `unicode` package says of a code point.
pub record Unicode : Type 0 where
  pub to_upper : ℕ → ℕ
  pub to_lower : ℕ → ℕ
  pub is_space : ℕ → Bool

-- `domain.SanctionsEntity`: the name and the address, "" for none
pub record SanctionsEntity : Type 0 where
  pub name : String
  pub address : String

-- `SanctionsSet`: the map of addresses with the last entry first, and the names in order. The time
-- of the refresh is left out.
pub record SanctionsSet : Type 0 where
  pub by_address : List (List ℕ × String)
  pub names : List (List ℕ × String)
  pub entity_count : ℕ
  pub loaded : Bool

abbrev pub empty_set : SanctionsSet
empty_set = record { by_address = []; names = []; entity_count = 0; loaded = false }

-- the first entry of a key
unfoldable pub find : List ℕ → List (List ℕ × String) → Option String
find key [] = none
find key (e ∷ es) = let rest = find key es in if same_text e.0 key then some e.1 else rest

abbrev pub is_empty : List ℕ → Bool
is_empty [] = true
is_empty (c ∷ cs) = false

module _ (u : Unicode) where
  unfoldable pub trim_left : List ℕ → List ℕ
  trim_left [] = []
  trim_left (c ∷ cs) = let rest = trim_left cs in if u.is_space c then rest else c ∷ cs

  unfoldable pub trim_right : List ℕ → List ℕ
  trim_right [] = []
  trim_right (c ∷ cs) =
      let rest = trim_right cs in if u.is_space c && is_empty rest then [] else c ∷ rest

  -- `strings.TrimSpace`
  abbrev pub trim_space : List ℕ → List ℕ
  trim_space cs = trim_right (trim_left cs)

  -- `normalizeAddress`
  unfoldable pub normalize_address : List ℕ → List ℕ
  unfolding trim_left trim_right
  normalize_address a = map u.to_upper (trim_space a)

  abbrev keeps : ℕ → Bool
  keeps r = leb 97 r && leb r 122 || leb 48 r && leb r 57 || ltb 127 r

  -- The loop of `normalizeName`; `last` says that the last character written was a space.
  unfoldable pub normalize_loop : Bool → List ℕ → List ℕ
  normalize_loop last [] = []
  normalize_loop last (r ∷ rs) =
      let kept = normalize_loop false rs in
      let spaced = normalize_loop true rs in
      if keeps r then r ∷ kept else if last then spaced else 32 ∷ spaced

  -- `normalizeName`
  unfoldable pub normalize_name : List ℕ → List ℕ
  unfolding trim_left trim_right normalize_loop
  normalize_name n = trim_space (normalize_loop true (map u.to_lower (trim_space n)))

  -- The loop of `Replace`, from the maps so far.
  unfoldable pub add_addresses :
      List SanctionsEntity → List (List ℕ × String) → List (List ℕ × String)
  unfolding normalize_address
  add_addresses [] m = m
  add_addresses (e ∷ es) m =
      let address = trim_space (codes e.address) in
      add_addresses es (if is_empty address then m else (normalize_address address, e.name) ∷ m)

  abbrev has_name : List ℕ → List (List ℕ × String) → Bool
  has_name n [] = false
  has_name n (x ∷ xs) = let rest = has_name n xs in same_text x.0 n || rest

  unfoldable pub add_names : List SanctionsEntity → List (List ℕ × String) → List (List ℕ × String)
  unfolding normalize_name
  add_names [] names = names
  add_names (e ∷ es) names =
      let n = normalize_name (codes e.name) in
      add_names es (if is_empty n || has_name n names then names else names ++ (n, e.name) ∷ [])

  abbrev pub count_entities : List SanctionsEntity → ℕ
  count_entities [] = 0
  count_entities (e ∷ es) = suc (count_entities es)

  -- `Replace`: an empty list is ignored
  unfoldable pub replace : List SanctionsEntity → SanctionsSet → SanctionsSet
  unfolding add_addresses add_names
  replace [] set = set
  replace (e ∷ es) set = record {
    by_address = add_addresses (e ∷ es) [];
    names = add_names (e ∷ es) [];
    entity_count = count_entities (e ∷ es);
    loaded = true;
  }

  -- `MatchAddress`
  unfoldable pub match_address : SanctionsSet → String → Option String
  unfolding find normalize_address
  match_address set addr =
      if addr == "" then none else find (normalize_address (codes addr)) set.by_address

  -- The loop of `MatchName`, from the best match so far.
  unfoldable pub closest : List ℕ → ℕ → List (List ℕ × String) → (best : ℕ) → String → ℕ × String
  unfolding levenshtein_at_most
  closest n threshold [] best name = (best, name)
  closest n threshold (e ∷ es) best name =
      let d = levenshtein_at_most n e.0 (pos threshold) in
      let better = closest n threshold es d e.1 in
      let rest = closest n threshold es best name in
      if ltb d best then (if eqb d 0 then (d, e.1) else better) else rest

  abbrev named : ℕ × String → Option (String × ℕ)
  named (best, name) = if name == "" then none else some (name, best)

  -- `MatchName`, for a threshold that is not negative: the name and its distance
  unfoldable pub match_name : SanctionsSet → String → ℕ → Option (String × ℕ)
  unfolding closest normalize_name
  match_name set name threshold =
      let n = normalize_name (codes name) in
      if is_empty n then none else named (closest n threshold set.names (threshold + 1) "")

  abbrev pub address_hit : String → ScreeningDecision
  address_hit entity = record {
    status = blocked;
    rules_fired = "sanctions_address_match" ∷ [];
    reason = "destination address appears on the OFAC SDN list";
    risk_score = pos 100;
    matched_entity = entity;
    block_id = "";
  }

  abbrev pub name_hit : String × ℕ → ScreeningDecision
  name_hit (entity, dist) = record {
    status = hold;
    rules_fired =
        (if ltb 0 dist then "sanctions_name_fuzzy_match" else "sanctions_name_match") ∷ [];
    reason = "destination name closely matches an OFAC SDN entry";
    risk_score = pos 80 -ℤ pos (dist * 10);
    matched_entity = entity;
    block_id = "";
  }

  abbrev name_decision : Option (String × ℕ) → ScreeningDecision
  name_decision none = clear_decision
  name_decision (some m) = name_hit m

  abbrev pub address_decision : Option String → ScreeningDecision → ScreeningDecision
  address_decision none other = other
  address_decision (some entity) other = address_hit entity

  -- `Screen` of the sanctions screener, with the set that is in memory
  unfoldable pub screen_sanctions :
      {D : Type 0} → SanctionsSet → ℕ → ScreeningRequest D → Result ScreeningDecision
  unfolding match_address match_name
  screen_sanctions set threshold req =
      if not set.loaded
      then err sanctions_set_not_loaded
      else ok (
          address_decision (match_address set req.to_public_key)
            (name_decision (match_name set req.to_federation threshold)))
