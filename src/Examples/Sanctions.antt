-- ===== src/Examples/Sanctions.antt =====
-- The theorems on the sanctions screener, with the ASCII part of Go's `unicode`.
use flowx.Prelude.{
  ◌↔◌, ◌-◌, ◌≡◌, refl, true, not, ◌&&◌, [], ◌∷◌, ◌==◌, string_eq, leb, eqb, if◌then◌else◌,
}
use flowx.Exec.{err, sanctions_set_not_loaded}
use flowx.Transfer.Address.{codes}
use flowx.Compliance.Sanctions.{
  Unicode, SanctionsEntity, empty_set, replace, normalize_address, screen_sanctions, match_address,
  find,
}
use flowx.Compliance.Sanctions.Matching.{
  blocks, some_listed, sanctions_blocks, refreshed, all_empty, unloaded_fails,
}
use flowx.Examples.Screening.{request}

abbrev ascii : Unicode
ascii = record {
  to_upper = λ c. if leb 97 c && leb c 122 then c - 32 else c;
  to_lower = λ c. c;
  is_space = λ c. eqb c 32;
}

abbrev party : SanctionsEntity
party = record { name = "party"; address = " K2 " }

sanctions_blocks_example :
    blocks (screen_sanctions ascii (replace ascii (party ∷ []) empty_set) 2 request) ≡ (
      not (request.to_public_key == "")
      && some_listed ascii (normalize_address ascii (codes "k2")) (party ∷ []))
sanctions_blocks_example = sanctions_blocks ascii party [] empty_set 2 request

-- and the destination "k2" is blocked
blocked_k2 : blocks (screen_sanctions ascii (replace ascii (party ∷ []) empty_set) 2 request) ≡ true
unfolding screen_sanctions replace match_address find
blocked_k2 = refl

unloaded_fails_example :
    (screen_sanctions ascii (refreshed ascii ([] ∷ [] ∷ [])) 2 request
      ≡ err sanctions_set_not_loaded)
    ↔ (all_empty ([] ∷ [] ∷ []) ≡ true)
unloaded_fails_example = unloaded_fails ascii ([] ∷ [] ∷ []) 2 request
