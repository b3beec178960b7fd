-- ===== src/Submission.antt =====
-- internal/settlement/engine.go: the attempts to submit one signed transaction to Horizon.
use flowx.Prelude.{
  ℕ, zero, suc, String, Bool, true, false, not, ◌&&◌, ◌||◌, none, some, List, [], ◌∷◌, eqb,
  string_eq, if◌then◌else◌,
}
use flowx.Exec.{ok}
use flowx.World.{Action, Envelope, SubmitReply, accepted, refused, DetailReply, unavailable}
use flowx.Transfer.Address.{codes, strip}

-- `strings.Contains`
unfoldable pub contains_codes : List ℕ → List ℕ → Bool
unfolding strip
contains_codes part [] = elim part [ [] ↦ true | p ∷ ps ↦ false ]
contains_codes part (c ∷ cs) =
    let rest = contains_codes part cs in
    elim (strip part (c ∷ cs)) [ some tail ↦ true | none ↦ rest ]

abbrev pub contains : String → String → Bool
contains text part = contains_codes (codes part) (codes text)

-- `isRetryable`, of the text of an error
unfoldable pub is_retryable : String → Bool
unfolding contains_codes
is_retryable e = contains e "429" || contains e "503" || contains e "timeout"

-- `submitOutcome`; the hash in the answer is not used, and the error is kept as its text.
pub record SubmitOutcome : Type 0 where
  pub confirmed : Bool
  pub ambiguous : Bool
  pub error : String

-- What `submitWithRetry` reads of the outside: the answer of Horizon to each attempt, and whether
-- the context is done before the wait ahead of it is over.
abbrev pub next_submit_reply : List SubmitReply → SubmitReply
next_submit_reply [] = refused "timeout"
next_submit_reply (r ∷ rs) = r

abbrev pub rest_submit_replies : List SubmitReply → List SubmitReply
rest_submit_replies [] = []
rest_submit_replies (r ∷ rs) = rs

abbrev pub next_detail : List DetailReply → DetailReply
next_detail [] = unavailable
next_detail (r ∷ rs) = r

abbrev pub rest_details : List DetailReply → List DetailReply
rest_details [] = []
rest_details (r ∷ rs) = rs

module _ {D : Type 0} where
  -- one call of `SubmitTransaction`
  unfoldable pub submit_once : Envelope → Action D SubmitReply
  submit_once e w = (
    ok (next_submit_reply w.submit_replies),
    record w { sent = e ∷ w.sent; submit_replies = rest_submit_replies w.submit_replies },
  )

  -- one call of `TransactionDetail`
  unfoldable pub transaction_detail : String → Action D DetailReply
  transaction_detail hash w = (
    ok (next_detail w.detail_replies),
    record w { detail_replies = rest_details w.detail_replies },
  )

abbrev pub outcome_confirmed : SubmitOutcome
outcome_confirmed = record { confirmed = true; ambiguous = false; error = "" }

abbrev pub outcome_ambiguous : String → SubmitOutcome
outcome_ambiguous e = record { confirmed = false; ambiguous = true; error = e }

abbrev pub outcome_rejected : String → SubmitOutcome
outcome_rejected e = record { confirmed = false; ambiguous = false; error = e }

module _ {D : Type 0} (context_done : ℕ → Bool) (e : Envelope) where
  -- The loop of `submitWithRetry`: `left` attempts are left, `n` were made, and `last` is the last
  -- error.
  unfoldable pub submit_loop : (left n : ℕ) (last : String) → Action D SubmitOutcome
  unfolding submit_once is_retryable
  submit_loop zero n last w = (ok (outcome_ambiguous last), w)
  submit_loop (suc left) n last w =
      let sent = submit_once e w in
      let again = λ (text : String). submit_loop left (suc n) text sent.1 in
      if not (eqb n 0) && context_done n
      then (ok (outcome_ambiguous "context done"), w)
      else elim (next_submit_reply w.submit_replies) [
        | accepted hash ↦ (ok outcome_confirmed, sent.1)
        | refused text ↦
            if is_retryable text then again text else (ok (outcome_rejected text), sent.1)
      ]

  -- `submitWithRetry`: three attempts
  unfoldable pub submit_with_retry : Action D SubmitOutcome
  unfolding submit_loop
  submit_with_retry = submit_loop 3 0 ""
