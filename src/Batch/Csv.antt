-- ===== src/Batch/Csv.antt =====
-- internal/batch/csv.go: a field of the export, as code points, and a reader of such fields.
use flowx.Prelude.{
  ℕ, zero, suc, String, ◌≡◌, refl, Bool, true, false, ◌||◌, List, [], ◌∷◌, ◌++◌, eqb, if◌then◌else◌,
}
use flowx.Decimal.{Decimal}
use flowx.Domain.{Transaction}
use flowx.Domain.Status.{
  TransactionStatus, pending, submitted, confirmed, failed, reconciliation_failed, compliance_hold,
}
use flowx.Transfer.Address.{codes}

abbrev comma : ℕ
comma = 44

abbrev newline : ℕ
newline = 10

abbrev return : ℕ
return = 13

abbrev quote : ℕ
quote = 34

-- `strings.ContainsAny(v, ",\"\n")`
unfoldable pub needs_quotes : List ℕ → Bool
needs_quotes [] = false
needs_quotes (c ∷ cs) =
    let rest = needs_quotes cs in eqb c comma || eqb c quote || eqb c newline || rest

-- `strings.ReplaceAll(v, "\"", "\"\"")`
unfoldable pub double_quotes : List ℕ → List ℕ
double_quotes [] = []
double_quotes (c ∷ cs) =
    let rest = double_quotes cs in if eqb c quote then quote ∷ quote ∷ rest else c ∷ rest

-- `csvField`
unfoldable pub csv_field : List ℕ → List ℕ
unfolding needs_quotes double_quotes
csv_field v = if needs_quotes v then quote ∷ (double_quotes v ++ quote ∷ []) else v

-- A reader of fields as in RFC 4180, but for the end of a line, which is a newline alone as `toCSV`
-- writes it: the text of a quoted field, in which a quote is written twice; `ends` says that the
-- character before was a quote that may end the field.
abbrev read_quoted : (ends : Bool) → List ℕ → List ℕ × List ℕ
read_quoted ends [] = ([], [])
read_quoted true (c ∷ cs) =
    let (v, tail) = read_quoted false cs in if eqb c quote then (quote ∷ v, tail) else ([], c ∷ cs)
read_quoted false (c ∷ cs) =
    let ended = read_quoted true cs in
    let (v, tail) = read_quoted false cs in if eqb c quote then ended else (c ∷ v, tail)

-- the text up to a comma, a carriage return or the end of the line: a field without quotes has none
abbrev read_plain : List ℕ → List ℕ × List ℕ
read_plain [] = ([], [])
read_plain (c ∷ cs) =
    let (v, tail) = read_plain cs in
    if eqb c comma || eqb c return || eqb c newline then ([], c ∷ cs) else (c ∷ v, tail)

abbrev pub has_return : List ℕ → Bool
has_return [] = false
has_return (c ∷ cs) = let rest = has_return cs in eqb c return || rest

unfoldable pub read_field : List ℕ → List ℕ × List ℕ
read_field [] = ([], [])
read_field (c ∷ cs) = if eqb c quote then read_quoted false cs else read_plain (c ∷ cs)

-- A carriage return is written without quotes, and cuts the field off for the reader.
return_cut :
    read_field (csv_field (97 ∷ return ∷ 98 ∷ []) ++ comma ∷ [])
    ≡ (97 ∷ [], return ∷ 98 ∷ comma ∷ [])
unfolding csv_field read_field
return_cut = refl

-- the text of a status
abbrev status_text : TransactionStatus → String
status_text pending = "pending"
status_text submitted = "submitted"
status_text confirmed = "confirmed"
status_text failed = "failed"
status_text reconciliation_failed = "reconciliation_failed"
status_text compliance_hold = "compliance_hold"

-- The fields of a line, with a comma between them and the end of the line.
abbrev pub csv_line : List String → List ℕ
csv_line [] = newline ∷ []
csv_line (f ∷ []) = csv_field (codes f) ++ newline ∷ []
csv_line (f ∷ g ∷ fs) = csv_field (codes f) ++ comma ∷ csv_line (g ∷ fs)

module _ {D : Type 0} ⦃d : Decimal D⦄ where
  abbrev csv_fields : Transaction D → List String
  csv_fields t =
      t.to_wallet
      ∷ t.to_address
      ∷ t.asset
      ∷ d.string_fixed7 t.amount
      ∷ t.reference
      ∷ status_text t.status
      ∷ t.tx_hash
      ∷ []

  unfoldable pub csv_lines : List (Transaction D) → List ℕ
  csv_lines [] = []
  csv_lines (t ∷ ts) = csv_line (csv_fields t) ++ csv_lines ts

  -- `toCSV`, as code points
  unfoldable pub to_csv : List (Transaction D) → List ℕ
  unfolding csv_lines
  to_csv txs = codes "to_wallet,to_address,asset,amount,reference,status,tx_hash\n" ++ csv_lines txs

abbrev pub drop_one : List ℕ → List ℕ
drop_one [] = []
drop_one (c ∷ cs) = cs

-- Reading as many fields as there are gives them back, and leaves what follows the line's end.
abbrev pub read_fields : ℕ → List ℕ → List (List ℕ) × List ℕ
read_fields zero text = ([], text)
read_fields (suc n) text =
    let (v, tail) = read_field text in
    let (vs, end) = read_fields n (drop_one tail) in (v ∷ vs, end)
