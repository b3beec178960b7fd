-- ===== src/Compliance/Levenshtein.antt =====
-- internal/compliance/levenshtein.go. A text is the list of its runes.
pub mod Distance
pub mod Scripts
use flowx.Prelude.{
  ℕ, suc, ◌+◌, ◌-◌, ◌≡◌, refl, Bool, true, false, ◌||◌, ◌&&◌, List, [], ◌∷◌, ltb, eqb, length,
  if◌then◌else◌,
}
use flowx.Prelude.Int.{ℤ, pos, negsuc}

-- a == b
unfoldable pub same_text : List ℕ → List ℕ → Bool
same_text [] [] = true
same_text (x ∷ xs) (y ∷ ys) = let rest = same_text xs ys in eqb x y && rest
same_text _ _ = false

unfoldable pub min3 : ℕ → ℕ → ℕ → ℕ
min3 a b c = let a' = (if ltb b a then b else a) in if ltb c a' then c else a'

abbrev pub cost : ℕ → ℕ → ℕ
cost x y = if eqb x y then 0 else 1

-- The inner loop: the cells of `curr` from `j` on, and the least cell. `left` is curr[j-1], and
-- prev[j-1] and the rest of `prev` stand before and in the list; both rows have one length.
unfoldable pub fill : ℕ → ℕ → ℕ → List ℕ → List ℕ → ℕ → List ℕ × ℕ
unfolding min3
fill x left diag (y ∷ ys) (up ∷ ps) row_min =
    let c = min3 (left + 1) (up + 1) (diag + cost x y) in
    let (rest, least) = fill x c up ys ps (if ltb c row_min then c else row_min) in
    (c ∷ rest, least)
fill x left diag _ _ row_min = ([], row_min)

-- One round of the outer loop: `curr` with curr[0] = i, and its least cell.
unfoldable pub next_row : ℕ → ℕ → List ℕ → List ℕ → List ℕ × ℕ
unfolding fill
next_row i x br [] = ([], i)
next_row i x br (p ∷ ps) = let (cells, least) = fill x i p br ps i in (i ∷ cells, least)

abbrev pub get_or_zero : List ℕ → ℕ → ℕ
get_or_zero [] j = 0
get_or_zero (x ∷ xs) ℕ.zero = x
get_or_zero (x ∷ xs) (suc j) = get_or_zero xs j

abbrev pub capped : ℕ → ℕ → ℕ
capped max d = if ltb max d then max + 1 else d

-- The outer loop, over the rest of `ar`, and the result.
unfoldable pub rows : ℕ → ℕ → List ℕ → List ℕ → List ℕ → ℕ
unfolding next_row
rows max i [] br prev = capped max (get_or_zero prev (length br))
rows max i (x ∷ xs) br prev =
    let (curr, row_min) = next_row i x br prev in
    let rest = rows max (i + 1) xs br curr in if ltb max row_min then max + 1 else rest

-- `for j := range prev { prev[j] = j }`, from `j`
unfoldable pub first_row : ℕ → List ℕ → List ℕ
first_row j [] = j ∷ []
first_row j (y ∷ ys) = j ∷ first_row (j + 1) ys

unfoldable pub by_rows : ℕ → List ℕ → List ℕ → ℕ
unfolding rows first_row
by_rows max ar br = rows max 1 ar br (first_row 0 br)

-- `levenshteinAtMost`
unfoldable pub levenshtein_at_most : List ℕ → List ℕ → ℤ → ℕ
unfolding same_text by_rows
levenshtein_at_most a b (negsuc _) = if same_text a b then 0 else 1
levenshtein_at_most a b (pos max) =
    if same_text a b
    then 0
    else if ltb max (length a - length b) || ltb max (length b - length a)
    then max + 1
    else if ltb (length a) (length b)
    then by_rows max b a
    else by_rows max a b

kitten : List ℕ
kitten = b'k' ∷ b'i' ∷ b't' ∷ b't' ∷ b'e' ∷ b'n' ∷ []

sitting : List ℕ
sitting = b's' ∷ b'i' ∷ b't' ∷ b't' ∷ b'i' ∷ b'n' ∷ b'g' ∷ []

at_three : levenshtein_at_most kitten sitting (pos 3) ≡ 3
unfolding kitten sitting levenshtein_at_most
at_three = refl

above_two : levenshtein_at_most kitten sitting (pos 2) ≡ 3
unfolding kitten sitting levenshtein_at_most
above_two = refl
