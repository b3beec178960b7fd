-- ===== src/Xdc.antt =====
-- internal/chain/xdc/xdc.go: the client of the XDC chain. The key, address and signature functions of
-- go-ethereum are parameters; what the node answers is a script in the state.
pub mod Engine
pub mod Sends
pub mod Shut
pub mod Buried
pub mod Once
use Prim.Native.Char.{code}
use flowx.Prelude.{
  ℕ, ◌≡◌, refl, ◌+◌, ◌-◌, ◌%◌, ◌^◌, String, Bool, true, false, not, ◌&&◌, ◌||◌, Option, none, some,
  List, [], ◌∷◌, ◌++◌, ltb, leb, eqb, ◌==◌, string_eq, if◌then◌else◌,
}
use flowx.Prelude.Int.{ℤ}
use flowx.Exec.{
  Exec, Result, ok, err, chain_error, context_done, unsupported_asset, pure, raise, or_raise, ◌>>=◌,
  ◌>>◌,
}
use flowx.World.{World, Action}

-- the fields of the `types.LegacyTx` that the client builds; the gas is always 21000
pub record LegacyTx : Type 0 where
  pub from : String
  pub nonce : ℕ
  pub to : String
  pub value : ℤ
  pub gas_price : ℕ

pub record Receipt : Type 0 where
  pub successful : Bool
  pub block_number : ℕ

-- What one turn of a wait for confirmations reads: the receipt, and the number of the latest block.
pub record Poll : Type 0 where
  pub receipt : Option Receipt
  pub head : Option ℕ

pub record Evm (D : Type 0) : Type 0 where
  pub world : World D
  -- what was handed to the node, latest first
  pub broadcasts : List LegacyTx
  -- whether the node takes each of them; past the end it does
  pub refusals : List Bool
  -- what a wait for a hash reads until its context is done
  pub polls : String → List Poll

abbrev pub OnChain : Type 0 → Type 0 → Type 0
OnChain D A = Exec (Evm D) A

abbrev pub on_world : {D A : Type 0} → Action D A → OnChain D A
on_world m s = let (r, w) = m s.world in (r, record s { world = w })

-- What the client is built from: the functions of go-ethereum and the reads of the node.
pub record Node (D : Type 0) : Type 0 where
  -- the address of a private key in hexadecimal
  pub address_of : String → Option String
  -- `common.HexToAddress`
  pub hex_to_address : String → String
  pub pending_nonce_at : String → Action D ℕ
  pub suggest_gas_price : Action D ℕ
  -- from a private key, the hash of the signed transaction
  pub sign_tx : LegacyTx → String → Option String
  pub balance_at : String → Action D ℤ

-- a letter without regard to its case
abbrev is_letter : ℕ → ℕ → ℕ → Bool
is_letter lower upper c = eqb c lower || eqb c upper

-- `normalizeAddress`
unfoldable pub normalize_address : String → String
normalize_address (String.◌∷◌ a (String.◌∷◌ b (String.◌∷◌ c rest))) =
    if is_letter b'x' b'X' (code a) && is_letter b'd' b'D' (code b) && is_letter b'c' b'C' (code c)
    then String.◌∷◌ "0" (String.◌∷◌ "x" rest)
    else String.◌∷◌ a (String.◌∷◌ b (String.◌∷◌ c rest))
normalize_address addr = addr

normalized : normalize_address "Xdc1f3c" ≡ "0x1f3c"
unfolding normalize_address
normalized = refl

not_normalized : normalize_address "0x1f3c" ≡ "0x1f3c"
unfolding normalize_address
not_normalized = refl

-- `Confirmations`, of what was read; the numbers are uint64
unfoldable pub confirmations : Poll → Result ℕ
confirmations p = elim p.receipt [
  | none ↦ err chain_error
  | some r ↦ elim p.head [
    | none ↦ err chain_error
    | some head ↦
        if not r.successful
        then err chain_error
        else if ltb head r.block_number
        then ok 0
        else ok ((head - r.block_number + 1) % 2 ^ 64)
  ]
]

-- the loop of `WaitConfirmations`, over what it reads until its context is done
unfoldable pub wait_loop : ℕ → List Poll → Result (Unit {0})
unfolding confirmations
wait_loop n [] = err context_done
wait_loop n (p ∷ ps) =
    let rest = wait_loop n ps in
    elim (confirmations p) [ ok c ↦ if leb n c then ok tt else rest | err e ↦ rest ]

abbrev pub next_refusal : List Bool → Bool
next_refusal [] = false
next_refusal (b ∷ bs) = b

abbrev pub rest_refusals : List Bool → List Bool
rest_refusals [] = []
rest_refusals (b ∷ bs) = bs

module _ {D : Type 0} where
  -- `WaitConfirmations`
  unfoldable pub wait_confirmations : String → ℕ → OnChain D (Unit {0})
  unfolding wait_loop
  wait_confirmations hash n s = (wait_loop n (s.polls hash), s)

  -- `SendTransaction`
  unfoldable pub send_transaction : LegacyTx → OnChain D (Unit {0})
  send_transaction tx s = (
    if next_refusal s.refusals then err chain_error else ok tt,
    record s { broadcasts = tx ∷ s.broadcasts; refusals = rest_refusals s.refusals },
  )

module _ {D : Type 0} (node : Node D) where
  -- `Balance`; `contract` is the asset's contract address
  unfoldable pub balance : String → String → Action D ℤ
  unfolding normalize_address
  balance addr contract =
      if not (contract == "")
      then raise unsupported_asset
      else node.balance_at (node.hex_to_address (normalize_address addr))

  -- the transfer of the native asset from a known address
  unfoldable pub transfer_from : String → String → String → ℤ → OnChain D String
  unfolding send_transaction normalize_address
  transfer_from from private_key to_addr amount = do
    nonce ← on_world (node.pending_nonce_at from)
    gas_price ← on_world node.suggest_gas_price
    let tx : LegacyTx = record {
      from = from;
      nonce = nonce;
      to = node.hex_to_address (normalize_address to_addr);
      value = amount;
      gas_price = gas_price;
    }
    hash ← or_raise (node.sign_tx tx private_key) chain_error
    send_transaction tx
    pure hash

  -- `Transfer`
  unfoldable pub transfer : String → String → String → ℤ → OnChain D String
  unfolding transfer_from
  transfer private_key to_addr contract amount =
      if not (contract == "") then raise unsupported_asset else (do
        from ← or_raise (node.address_of private_key) chain_error
        transfer_from from private_key to_addr amount)
