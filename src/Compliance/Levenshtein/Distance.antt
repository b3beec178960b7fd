-- ===== src/Compliance/Levenshtein/Distance.antt =====
-- The table of levenshtein.go holds the edit distance. `dist` takes its texts in reverse, so that
-- its recursion peels off the last runes, as the table does.
use flowx.Prelude.{
  ℕ, suc, ◌+◌, ◌≤◌, ◌≡◌, refl, ap, List, [], ◌∷◌, ltb, arith, length, if◌then◌else◌,
}
use flowx.Compliance.Levenshtein.{
  min3, cost, fill, next_row, get_or_zero, capped, rows, first_row, by_rows,
}

unfoldable pub dist : List ℕ → List ℕ → ℕ
unfolding min3
dist [] ys = length ys
dist (x ∷ xs) [] = suc (length xs)
dist (x ∷ xs) (y ∷ ys) = min3 (dist (x ∷ xs) ys + 1) (dist xs (y ∷ ys) + 1) (dist xs ys + cost x y)

-- The reverse of a text in front of another.
abbrev pub onto : List ℕ → List ℕ → List ℕ
onto [] acc = acc
onto (x ∷ xs) acc = onto xs (x ∷ acc)

-- The cells of the row of `rx` for the prefixes of a text that go on from `acc`.
abbrev cells : List ℕ → List ℕ → List ℕ → List ℕ
cells rx acc [] = []
cells rx acc (y ∷ ys) = dist rx (y ∷ acc) ∷ cells rx (y ∷ acc) ys

abbrev row : List ℕ → List ℕ → List ℕ
row rx br = dist rx [] ∷ cells rx [] br

-- No cell of the row of `rx`, at `acc` or before, lies below `m`.
abbrev Bounded : ℕ → List ℕ → List ℕ → Type 0
Bounded m rx [] = m ≤ dist rx []
Bounded m rx (y ∷ acc) = (m ≤ dist rx (y ∷ acc)) × Bounded m rx acc

dist-nil : (xs : List ℕ) → dist xs [] ≡ length xs
unfolding dist
dist-nil [] = refl
dist-nil (x ∷ xs) = refl

Bounded-mono : (m n : ℕ) (rx acc : List ℕ) → n ≤ m → Bounded m rx acc → Bounded n rx acc
Bounded-mono m n rx [] h b = omega arith
Bounded-mono m n rx (y ∷ acc) h b = (omega arith, Bounded-mono m n rx acc h b.1)

Bounded-at : (m : ℕ) (rx acc : List ℕ) → Bounded m rx acc → m ≤ dist rx acc
Bounded-at m rx [] b = b
Bounded-at m rx (y ∷ acc) b = b.0

-- A lower bound of one row is a lower bound of the next.
Bounded-cons : (m x : ℕ) (rx acc : List ℕ) → Bounded m rx acc → Bounded m (x ∷ rx) acc
unfolding dist
Bounded-cons m x rx [] b = omega (arith, dist-nil rx)
Bounded-cons m x rx (y ∷ acc) b =
    let before = Bounded-cons m x rx acc b.1 in
    (ground (arith, Bounded-at m (x ∷ rx) acc before, Bounded-at m rx acc b.1), before)

Bounded-onto : (m : ℕ) (xs rx acc : List ℕ) → Bounded m rx acc → Bounded m (onto xs rx) acc
Bounded-onto m [] rx acc b = b
Bounded-onto m (x ∷ xs) rx acc b = Bounded-onto m xs (x ∷ rx) acc (Bounded-cons m x rx acc b)

-- The inner loop computes the cells, and a lower bound of the row.
fill_lem :
    (x : ℕ) (rx acc ys : List ℕ) (m : ℕ)
    → (fill x (dist (x ∷ rx) acc) (dist rx acc) ys (cells rx acc ys) m).0 ≡ cells (x ∷ rx) acc ys
unfolding fill dist
fill_lem x rx acc [] m = refl
fill_lem x rx acc (y ∷ ys) m = ap (◌∷◌ (dist (x ∷ rx) (y ∷ acc))) (fill_lem x rx (y ∷ acc) ys _)

fill-Bounded :
    (x : ℕ) (rx acc ys : List ℕ) (m : ℕ)
    → Bounded m (x ∷ rx) acc
    → Bounded
        (fill x (dist (x ∷ rx) acc) (dist rx acc) ys (cells rx acc ys) m).1
        (x ∷ rx)
        (onto ys acc)
unfolding fill dist
fill-Bounded x rx acc [] m b = b
fill-Bounded x rx acc (y ∷ ys) m b =
    let c = dist (x ∷ rx) (y ∷ acc) in
    let m' = (if ltb c m then c else m) in
    fill-Bounded x rx (y ∷ acc) ys m'
      (ground arith, Bounded-mono m m' (x ∷ rx) acc (ground arith) b)

next_row_lem :
    (i x : ℕ) (rx br : List ℕ)
    → i ≡ length rx + 1
    → (next_row i x br (row rx br)).0 ≡ row (x ∷ rx) br
unfolding next_row dist
next_row_lem i x rx br e =
    rw (fill_start i e) (ap (◌∷◌ (suc (length rx))) (fill_lem x rx [] br (suc (length rx))))
  where
    fill_start : (i : ℕ) → i ≡ length rx + 1 → i ≡ suc (length rx)
    fill_start i e = omega arith

next_row-Bounded :
    (i x : ℕ) (rx br : List ℕ)
    → i ≡ length rx + 1
    → Bounded (next_row i x br (row rx br)).1 (x ∷ rx) (onto br [])
unfolding next_row dist
next_row-Bounded i x rx br e =
    rw (fill_start i e) (fill-Bounded x rx [] br (suc (length rx)) (omega arith))
  where
    fill_start : (i : ℕ) → i ≡ length rx + 1 → i ≡ suc (length rx)
    fill_start i e = omega arith

get_or_zero-cells :
    (rx acc ys : List ℕ)
    → get_or_zero (dist rx acc ∷ cells rx acc ys) (length ys) ≡ dist rx (onto ys acc)
get_or_zero-cells rx acc [] = refl
get_or_zero-cells rx acc (y ∷ ys) = get_or_zero-cells rx (y ∷ acc) ys

-- The outer loop, its early exit included, gives the distance up to the cap.
rows_lem :
    (max i : ℕ) (xs rx br : List ℕ)
    → i ≡ length rx + 1
    → rows max i xs br (row rx br) ≡ capped max (dist (onto xs rx) (onto br []))
unfolding rows
rows_lem max i [] rx br e = rw (get_or_zero-cells rx [] br)
rows_lem max i (x ∷ xs) rx br e =
    let lower =
      Bounded-at _ _ _ (Bounded-onto _ xs (x ∷ rx) (onto br []) (next_row-Bounded i x rx br e)) in
    let ih = rows_lem max (i + 1) xs (x ∷ rx) br (omega arith) in
    rw (next_row_lem i x rx br e) (ground (arith, ih, lower))

first_row_lem : (acc ys : List ℕ) → first_row (length acc) ys ≡ dist [] acc ∷ cells [] acc ys
unfolding first_row dist
first_row_lem acc [] = refl
first_row_lem acc (y ∷ ys) =
    ap (◌∷◌ (length acc)) (rw (suc_length acc) (first_row_lem (y ∷ acc) ys))
  where
    suc_length : (acc : List ℕ) → length acc + 1 ≡ suc (length acc)
    suc_length acc = omega arith

pub by_rows_lem :
    (max : ℕ) (a b : List ℕ) → by_rows max a b ≡ capped max (dist (onto a []) (onto b []))
unfolding by_rows
by_rows_lem max a b = rw (first_row_lem [] b) (rows_lem max 1 a [] b (omega arith))
