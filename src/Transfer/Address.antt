-- ===== src/Transfer/Address.antt =====
-- internal/transfer/address.go, and `IsNativeAsset` of internal/assets/assets.go.
use Prim.Native.Char.{code}
use flowx.Prelude.{
  ℕ, zero, suc, ◌≡◌, refl, String, Bool, true, false, ◌&&◌, ◌||◌, List, [], ◌∷◌, leb, eqb, ◌==◌,
  string_eq, if◌then◌else◌, Option, none, some,
}

-- The code points of a text.
abbrev pub codes : String → List ℕ
codes String.[] = []
codes (String.◌∷◌ c s) = code c ∷ codes s

-- [0-9a-fA-F]
unfoldable pub is_hex : ℕ → Bool
is_hex c = leb b'0' c && leb c b'9' || leb b'a' c && leb c b'f' || leb b'A' c && leb c b'F'

-- [0-9a-fA-F]{n}$
unfoldable pub hex_digits : ℕ → List ℕ → Bool
unfolding is_hex
hex_digits zero [] = true
hex_digits zero (c ∷ cs) = false
hex_digits (suc n) [] = false
hex_digits (suc n) (c ∷ cs) = let rest = hex_digits n cs in is_hex c && rest

-- What follows a prefix.
unfoldable pub strip : List ℕ → List ℕ → Option (List ℕ)
strip [] cs = some cs
strip (p ∷ ps) [] = none
strip (p ∷ ps) (c ∷ cs) = let rest = strip ps cs in if eqb p c then rest else none

abbrev hex_40 : Option (List ℕ) → Bool
hex_40 none = false
hex_40 (some cs) = hex_digits 40 cs

-- `IsValidDestinationAddress`: ^(0x|xdc)[0-9a-fA-F]{40}$
unfoldable pub is_valid_destination_address : String → Bool
unfolding hex_digits strip
is_valid_destination_address addr =
    hex_40 (strip (codes "0x") (codes addr)) || hex_40 (strip (codes "xdc") (codes addr))

-- `IsNativeAsset`
unfoldable pub is_native_asset : String → Bool
is_native_asset code = code == "" || code == "XLM" || code == "TXDC" || code == "XDC"

valid_address : is_valid_destination_address "xdc0123456789abcdefABCDEF0123456789abcdef0123" ≡ false
unfolding is_valid_destination_address
valid_address = refl

valid_address_40 : is_valid_destination_address "0x0123456789abcdefABCDEF0123456789abcdef01" ≡ true
unfolding is_valid_destination_address
valid_address_40 = refl
