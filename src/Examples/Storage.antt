-- ===== src/Examples/Storage.antt =====
-- The theorems on the repository of transactions.
use flowx.Prelude.{ℕ, String, inl, ◌≤◌, ◌≡◌, ◌≢◌, refl, some, List, [], ◌∷◌, arith, string_eq}
use flowx.Prelude.Int.{ℤ, int_eq}
use flowx.Decimal.Scaled.{scaled}
use flowx.Exec.{ok}
use flowx.Domain.Status.{pending, submitted, confirmed, tx_status_eq}
use flowx.World.{World}
use flowx.TxRepo.{claim_for_submission, reset_stuck_submitted_to_pending, exec_update, must_affect}
use flowx.TxRepo.Writes.{Write, set_status, claim, fail, replay, claim_exclusive}
use flowx.TxRepo.Final.{confirmations, confirmed_final}
use flowx.TxRepo.Quota.{Call, create_each, used, quota_kept}
use flowx.TxRepo.Reopen.{claim_reset_claim}
use flowx.Examples.{row, transaction, world}

abbrev history : List (Write ℤ)
history = set_status "acme" "t1" submitted "h1" ∷ claim "t1" ∷ fail "t2" ∷ []

abbrev two_pending : World ℤ
two_pending = world (row "t1" pending ∷ row "t2" pending ∷ [])

claim_exclusive_example :
    (claim_for_submission "t1" (replay history (claim_for_submission "t1" two_pending).1)).0 ≢ ok tt
unfolding claim_for_submission exec_update must_affect
claim_exclusive_example = claim_exclusive "t1" two_pending history refl (refl, (refl, (refl, tt)))

abbrev one_confirmed : World ℤ
one_confirmed = world (record (row "t1" confirmed) { tx_hash = some "h1" } ∷ [])

confirmed_final_example :
    confirmations "t1" "h1" one_confirmed ≤ confirmations "t1" "h1" (replay history one_confirmed)
confirmed_final_example = confirmed_final "t1" "h1" history one_confirmed (refl, (refl, (refl, tt)))

abbrev calls : List (Call ℤ)
calls =
    record { transaction = transaction "t1" pending; tenant = "acme"; start = 0; finish = 100 }
    ∷ record { transaction = transaction "t2" pending; tenant = "acme"; start = 0; finish = 100 }
    ∷ record { transaction = transaction "t3" pending; tenant = "acme"; start = 0; finish = 100 }
    ∷ []

abbrev two_each : String → ℕ
two_each tenant = 2

quota_kept_example : used two_each 0 100 "acme" (create_each two_each calls (world [])) ≤ 2
quota_kept_example =
    quota_kept two_each 0 100 "acme" calls (world []) (refl, (refl, (refl, tt)))
      (inl (refl, refl), (inl (refl, refl), (inl (refl, refl), tt))) (omega arith)

claim_reset_claim_example :
    ((claim_for_submission "t1" two_pending).0 ≡ ok tt)
    × ((claim_for_submission "t1"
          (reset_stuck_submitted_to_pending "t1" 600 (claim_for_submission "t1" two_pending).1).1).0
        ≡ ok tt)
claim_reset_claim_example = claim_reset_claim "t1" 600 two_pending refl (omega arith) (omega arith)
