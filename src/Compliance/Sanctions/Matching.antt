-- ===== src/Compliance/Sanctions/Matching.antt =====
-- Which destinations the sanctions screener blocks.
use flowx.Prelude.{
  ℕ, ◌↔◌, ◌≡◌, refl, sym, String, Bool, true, false, not, ◌&&◌, ◌||◌, Option, none, some, List, [],
  ◌∷◌, arith, ◌==◌, string_eq, if◌then◌else◌, ◌∙◌, ap,
}
use flowx.Exec.Keeps.{either-cases}
use flowx.Exec.{Result, ok, err, sanctions_set_not_loaded}
use flowx.Domain.{ScreeningRequest, ScreeningDecision}
use flowx.Transfer.Address.{codes}
use flowx.Compliance.Levenshtein.{same_text}
use flowx.Compliance.Service.{is_blocked}
use flowx.Compliance.Sanctions.{
  Unicode, SanctionsEntity, SanctionsSet, empty_set, find, is_empty, trim_space, normalize_address,
  add_addresses, replace, match_address, screen_sanctions,
}

abbrev is_some : {A : Type 0} → Option A → Bool
is_some none = false
is_some (some a) = true

-- Whether a screener has blocked the destination.
abbrev pub blocks : Result ScreeningDecision → Bool
blocks (err e) = false
blocks (ok x) = is_blocked x.status

found_first :
    (empty same rest : Bool) (x : String) (o : Option String)
    → empty ≡ false
    → (rest || is_some (if same then some x else o)) ≡ (not empty && same || rest || is_some o)
found_first empty same rest x o k = ground arith

-- Whether every list of a history is empty.
abbrev pub all_empty : List (List SanctionsEntity) → Bool
all_empty [] = true
all_empty ([] ∷ before) = all_empty before
all_empty ((e ∷ es) ∷ before) = false

module _ (u : Unicode) where
  -- Whether an entity is listed with an address of that normal form.
  abbrev pub listed : List ℕ → SanctionsEntity → Bool
  listed key e =
      not (is_empty (trim_space u (codes e.address)))
      && same_text (normalize_address u (trim_space u (codes e.address))) key

  abbrev pub some_listed : List ℕ → List SanctionsEntity → Bool
  some_listed key [] = false
  some_listed key (e ∷ es) = let rest = some_listed key es in listed key e || rest

  absent :
      (key : List ℕ) (e : SanctionsEntity) (es : List SanctionsEntity) (old : Bool)
      → is_empty (trim_space u (codes e.address)) ≡ true
      → (some_listed key es || old) ≡ (some_listed key (e ∷ es) || old)
  absent key e es old k =
      ap
        (λ b.
          not b && same_text (normalize_address u (trim_space u (codes e.address))) key
          || some_listed key es
          || old)
        (sym k)

  present :
      (key : List ℕ) (e : SanctionsEntity) (es : List SanctionsEntity) (m : List (List ℕ × String))
      → is_empty (trim_space u (codes e.address)) ≡ false
      → (some_listed key es
          || is_some
              (find key ((normalize_address u (trim_space u (codes e.address)), e.name) ∷ m)))
        ≡ (some_listed key (e ∷ es) || is_some (find key m))
  unfolding find
  present key e es m k =
      found_first (is_empty (trim_space u (codes e.address)))
        (same_text (normalize_address u (trim_space u (codes e.address))) key) (some_listed key es)
        e.name (find key m) k

  find-add_addresses :
      (key : List ℕ) (es : List SanctionsEntity) (m : List (List ℕ × String))
      → is_some (find key (add_addresses u es m)) ≡ (some_listed key es || is_some (find key m))
  unfolding add_addresses find
  find-add_addresses key [] m = refl
  find-add_addresses key (e ∷ es) m =
      let address = trim_space u (codes e.address) in
      either-cases
        (λ m'.
          is_some (find key (add_addresses u es m'))
          ≡ (some_listed key (e ∷ es) || is_some (find key m)))
        (is_empty address) m ((normalize_address u address, e.name) ∷ m)
        (λ k. find-add_addresses key es m ∙ absent key e es (is_some (find key m)) k)
        (λ k.
          find-add_addresses key es ((normalize_address u address, e.name) ∷ m)
          ∙ present key e es m k)

  -- After a refresh with a list that is not empty, the sanctions screener blocks a destination
  -- exactly if it is not empty and some entity of that list has an address with the same normal
  -- form, whatever the set held before and whatever the names say.
  pub sanctions_blocks :
      {D : Type 0} (e : SanctionsEntity) (es : List SanctionsEntity) (set : SanctionsSet)
      (threshold : ℕ) (req : ScreeningRequest D)
      → blocks (screen_sanctions u (replace u (e ∷ es) set) threshold req) ≡ (
          not (req.to_public_key == "")
          && some_listed (normalize_address u (codes req.to_public_key)) (e ∷ es))
  unfolding screen_sanctions replace match_address find
  sanctions_blocks e es set threshold req =
      grind (arith, find-add_addresses (normalize_address u (codes req.to_public_key)) (e ∷ es) [])

  -- The set after a history of refreshes, the last one first.
  abbrev pub refreshed : List (List SanctionsEntity) → SanctionsSet
  refreshed [] = empty_set
  refreshed (es ∷ before) = replace u es (refreshed before)

  loaded-refreshed :
      (history : List (List SanctionsEntity)) → (refreshed history).loaded ≡ not (all_empty history)
  unfolding replace
  loaded-refreshed [] = refl
  loaded-refreshed ([] ∷ before) = loaded-refreshed before
  loaded-refreshed ((e ∷ es) ∷ before) = refl

  -- After any history of refreshes of a set that was empty at first, the screener returns the error
  -- that nothing is loaded exactly if every one of their lists was empty, whatever the request.
  pub unloaded_fails :
      {D : Type 0} (history : List (List SanctionsEntity)) (threshold : ℕ)
      (req : ScreeningRequest D)
      → (screen_sanctions u (refreshed history) threshold req ≡ err sanctions_set_not_loaded)
        ↔ (all_empty history ≡ true)
  unfolding screen_sanctions
  unloaded_fails history threshold req = (
    λ h. grind (arith, h, loaded-refreshed history),
    λ h. grind (arith, h, loaded-refreshed history),
  )
