-- ===== src/Compliance/Levenshtein/Scripts.antt =====
-- What `levenshteinAtMost` promises, against edit scripts: the least cost of one, up to the cap.
use flowx.Prelude.{
  ℕ, suc, ◌+◌, ◌≤◌, ◌≡◌, refl, ap, ◌∙◌, Bool, true, false, List, [], ◌∷◌, ◌++◌, ltb, min, arith,
  length, Bool-cases, inl, inr, if◌then◌else◌,
}
use mathlib.Core.Path.{subst₂}
use mathlib.Core.List.{append-nil}
use flowx.Prelude.Int.{pos}
use flowx.Compliance.Levenshtein.{min3, cost, capped, same_text, levenshtein_at_most}
use flowx.Compliance.Levenshtein.Distance.{dist, onto, by_rows_lem}

-- How to edit one text into another, rune by rune from the left. `swap` keeps an equal rune for
-- nothing and substitutes another one.
pub data Script : List ℕ → List ℕ → Type 0 where
  done : Script [] []
  swap : {xs ys : List ℕ} (x y : ℕ) → Script xs ys → Script (x ∷ xs) (y ∷ ys)
  delete : {xs ys : List ℕ} (x : ℕ) → Script xs ys → Script (x ∷ xs) ys
  insert : {xs ys : List ℕ} (y : ℕ) → Script xs ys → Script xs (y ∷ ys)

unfoldable pub price : {xs ys : List ℕ} → Script xs ys → ℕ
price done = 0
price (swap x y s) = cost x y + price s
price (delete x s) = suc (price s)
price (insert y s) = suc (price s)

-- A script reads as well from the right: onto reversed texts, with a script for what stands there.
turn :
    {xs ys ls rs : List ℕ} (s : Script xs ys) (t : Script ls rs)
    → (u : Script (onto xs ls) (onto ys rs)) × (price u ≡ price s + price t)
unfolding price
turn done t = (t, omega arith)
turn (swap x y s) t = let (u, e) = turn s (swap x y t) in (u, omega (arith, e))
turn (delete x s) t = let (u, e) = turn s (delete x t) in (u, omega (arith, e))
turn (insert y s) t = let (u, e) = turn s (insert y t) in (u, omega (arith, e))

dist-nil : (xs : List ℕ) → dist xs [] ≡ length xs
unfolding dist
dist-nil [] = refl
dist-nil (x ∷ xs) = refl

dist-cons_left : (x : ℕ) (xs ys : List ℕ) → dist (x ∷ xs) ys ≤ dist xs ys + 1
unfolding dist
dist-cons_left x xs [] = omega (arith, dist-nil xs)
dist-cons_left x xs (y ∷ ys) = ground arith

dist-cons_right : (y : ℕ) (xs ys : List ℕ) → dist xs (y ∷ ys) ≤ dist xs ys + 1
unfolding dist
dist-cons_right y [] ys = omega arith
dist-cons_right y (x ∷ xs) ys = ground arith

-- No script is cheaper than the distance.
dist-le-price : {xs ys : List ℕ} (s : Script xs ys) → dist xs ys ≤ price s
unfolding dist price
dist-le-price done = omega arith
dist-le-price (swap {xs} {ys} x y s) = ground (arith, dist-le-price s)
dist-le-price (delete {xs} {ys} x s) = omega (arith, dist-le-price s, dist-cons_left x xs ys)
dist-le-price (insert {xs} {ys} y s) = omega (arith, dist-le-price s, dist-cons_right y xs ys)

abbrev Costs : List ℕ → List ℕ → ℕ → Type 0
Costs xs ys n = (s : Script xs ys) × (price s ≡ n)

Costs-min3 :
    (xs ys : List ℕ) (a b c : ℕ)
    → Costs xs ys a
    → Costs xs ys b
    → Costs xs ys c
    → Costs xs ys (min3 a b c)
unfolding min3
Costs-min3 xs ys a b c p q r = elim (Bool-cases (ltb b a)) [
  | inl h ↦ rw h (pick (ltb c b) b q)
  | inr h ↦ rw h (pick (ltb c a) a p)
]
  where
    pick : (t : Bool) (m : ℕ) → Costs xs ys m → Costs xs ys (if t then c else m)
    pick true m k = r
    pick false m k = k

all_inserted : (ys : List ℕ) → Costs [] ys (length ys)
unfolding price
all_inserted [] = (done, refl)
all_inserted (y ∷ ys) = let (s, e) = all_inserted ys in (insert y s, ap suc e)

all_deleted : (xs : List ℕ) → Costs xs [] (length xs)
unfolding price
all_deleted [] = (done, refl)
all_deleted (x ∷ xs) = let (s, e) = all_deleted xs in (delete x s, ap suc e)

-- Some script costs what the distance says.
dist_attained : (xs ys : List ℕ) → Costs xs ys (dist xs ys)
unfolding dist price
dist_attained [] ys = all_inserted ys
dist_attained (x ∷ xs) [] = all_deleted (x ∷ xs)
dist_attained (x ∷ xs) (y ∷ ys) =
    let (s, es) = dist_attained (x ∷ xs) ys in
    let (t, et) = dist_attained xs (y ∷ ys) in
    let (u, eu) = dist_attained xs ys in
    Costs-min3 _ _ (dist (x ∷ xs) ys + 1) (dist xs (y ∷ ys) + 1) (dist xs ys + cost x y)
      (insert y s, omega (arith, es)) (delete x t, omega (arith, et))
      (swap x y u, omega (arith, eu))

flip : {xs ys : List ℕ} (s : Script xs ys) → Costs ys xs (price s)
unfolding price
flip done = (done, refl)
flip (swap x y s) = let (t, e) = flip s in (swap y x t, ground (arith, e))
flip (delete x s) = let (t, e) = flip s in (insert x t, ap suc e)
flip (insert y s) = let (t, e) = flip s in (delete y t, ap suc e)

dist_comm-le : (xs ys : List ℕ) → dist ys xs ≤ dist xs ys
dist_comm-le xs ys =
    let (s, e) = dist_attained xs ys in let (t, f) = flip s in omega (arith, e, f, dist-le-price t)

dist_comm : (xs ys : List ℕ) → dist xs ys ≡ dist ys xs
dist_comm xs ys = omega (arith, dist_comm-le xs ys, dist_comm-le ys xs)

price-gap :
    {xs ys : List ℕ} (s : Script xs ys)
    → (length xs ≤ length ys + price s) × (length ys ≤ length xs + price s)
unfolding price
price-gap done = (omega arith, omega arith)
price-gap (swap x y s) = omega (arith, price-gap s)
price-gap (delete x s) = omega (arith, price-gap s)
price-gap (insert y s) = omega (arith, price-gap s)

onto-onto : (xs acc ys : List ℕ) → onto (onto xs acc) ys ≡ onto acc (xs ++ ys)
onto-onto [] acc ys = refl
onto-onto (x ∷ xs) acc ys = onto-onto xs (x ∷ acc) ys

same_text-eq : (a b : List ℕ) → same_text a b ≡ true → a ≡ b
unfolding same_text
same_text-eq [] [] h = refl
same_text-eq [] (y ∷ ys) h = cc
same_text-eq (x ∷ xs) [] h = cc
same_text-eq (x ∷ xs) (y ∷ ys) h = ground (arith, same_text-eq xs ys)

kept : (xs : List ℕ) → Costs xs xs 0
unfolding price
kept [] = (done, refl)
kept (x ∷ xs) = let (s, e) = kept xs in (swap x x s, ground (arith, e))

-- The distance of two texts, by their scripts.
abbrev distance : List ℕ → List ℕ → ℕ
distance a b = dist (onto a []) (onto b [])

distance-le-price : {a b : List ℕ} (s : Script a b) → distance a b ≤ price s
unfolding price
distance-le-price s = let (t, e) = turn s done in omega (arith, e, dist-le-price t)

distance_attained : (a b : List ℕ) → Costs a b (distance a b)
unfolding price
distance_attained a b =
    let (s, e) = dist_attained (onto a []) (onto b []) in
    let (t, f) = turn s done in
    subst₂ (λ l r. Costs l r (distance a b)) (onto-onto a [] [] ∙ append-nil a)
      (onto-onto b [] [] ∙ append-nil b) (t, omega (arith, e, f))

distance-gap :
    (a b : List ℕ) → (length a ≤ length b + distance a b) × (length b ≤ length a + distance a b)
distance-gap a b = let (s, e) = distance_attained a b in omega (arith, e, price-gap s)

distance_self : (a b : List ℕ) → same_text a b ≡ true → distance a b ≡ 0
distance_self a b h =
    rw (same_text-eq a b h) (let (s, e) = kept b in omega (arith, e, distance-le-price s))

levenshtein-eq-distance :
    (a b : List ℕ) (max : ℕ) → levenshtein_at_most a b (pos max) ≡ capped max (distance a b)
unfolding levenshtein_at_most
levenshtein-eq-distance a b max = ground (
  arith,
  distance_self a b,
  distance-gap a b,
  by_rows_lem max a b,
  by_rows_lem max b a,
  dist_comm (onto a []) (onto b []),
)

-- For a cap that is not negative, the result is at most the cost of any edit script between the
-- two texts, and at most one above the cap.
pub levenshtein-le-price :
    (a b : List ℕ) (max : ℕ) (s : Script a b)
    → levenshtein_at_most a b (pos max) ≤ min (price s) (max + 1)
levenshtein-le-price a b max s =
    ground (arith, levenshtein-eq-distance a b max, distance-le-price s)

-- For a cap that is not negative, a result within the cap is the cost of an edit script.
pub levenshtein_attained :
    (a b : List ℕ) (max : ℕ)
    → levenshtein_at_most a b (pos max) ≤ max
    → (s : Script a b) × (price s ≡ levenshtein_at_most a b (pos max))
levenshtein_attained a b max h =
    let (s, e) = distance_attained a b in (s, ground (arith, e, levenshtein-eq-distance a b max))
