-- ===== src/Transfer/Trustline.antt =====
-- `validateTrustline` of internal/transfer/service.go.
use flowx.Prelude.{
  String, Bool, false, ◌||◌, Option, none, some, List, [], ◌∷◌, ◌==◌, string_eq, if◌then◌else◌,
}
use flowx.Exec.{no_trustline, pure, raise, catch, ◌>>=◌}
use flowx.World.{Action}

-- What `LoadAccount` answers: the codes of the account's balances, a 404, or another error.
pub data AccountReply : Type 0 where
  account : List String → AccountReply
  no_account unavailable : AccountReply

unfoldable pub mem_code : String → List String → Bool
mem_code asset [] = false
mem_code asset (c ∷ cs) = let rest = mem_code asset cs in c == asset || rest

module _ {D : Type 0} where
  -- The check in the cached balances, whose error counts as no balance.
  unfoldable pub check_cached :
      (String → Action D (List String)) → String → String → Action D (Unit {0})
  unfolding mem_code
  check_cached get_balances wallet_id asset = do
    codes ← catch (get_balances wallet_id) (λ _. pure [])
    if mem_code asset codes then pure tt else raise (no_trustline asset)

  -- What the live account decides: a 404 is final, a trustline suffices, and anything else goes on
  -- to the cache.
  unfoldable pub after_account :
      (String → Action D (List String)) → String → String → AccountReply → Action D (Unit {0})
  unfolding check_cached
  after_account get_balances wallet_id asset no_account = raise (no_trustline asset)
  after_account get_balances wallet_id asset (account codes) =
      if mem_code asset codes then pure tt else check_cached get_balances wallet_id asset
  after_account get_balances wallet_id asset unavailable = check_cached get_balances wallet_id asset

  -- `validateTrustline`; there may be no Stellar client.
  unfoldable pub validate_trustline :
      Option (String → Action D AccountReply)
      → (String → Action D (List String))
      → String
      → String
      → String
      → Action D (Unit {0})
  unfolding after_account
  validate_trustline none get_balances wallet_id public_key asset =
      check_cached get_balances wallet_id asset
  validate_trustline (some load_account) get_balances wallet_id public_key asset = do
    reply ← load_account public_key
    after_account get_balances wallet_id asset reply
