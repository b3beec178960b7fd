-- ===== src/Exec/Keeps.antt =====
-- What holds of a call that is built by a test, or that follows another call.
use flowx.Prelude.{◌≡◌, refl, Bool, true, false, if◌then◌else◌}
use flowx.Exec.{Error, Result, ok, err, Exec, continue, catch}

module _ {ℓ κ} {S A : Type ℓ} (P : Result A × S → Type κ) where
  pub if-holds :
      (b : Bool) (m n : Exec S A) (s : S) → P (m s) → P (n s) → P ((if b then m else n) s)
  if-holds true m n s h k = h
  if-holds false m n s h k = k

  -- The predicate on the state holds after the first call, and after the second if it is made.
  pub continue-holds :
      {B : Type ℓ} (p : Result B × S) (f : B → Exec S A)
      → ((e : Error) → P (err e, p.1))
      → ((b : B) → P (f b p.1))
      → P (continue p f)
  continue-holds (ok b, s) f h k = k b
  continue-holds (err e, s) f h k = h e

pub either-holds {ℓ κ} :
    {X : Type ℓ} (P : X → Type κ) (b : Bool) (x y : X) → P x → P y → P (if b then x else y)
either-holds P true x y h k = h
either-holds P false x y h k = k

-- The same where what the test found is of use.
pub if-cases {ℓ κ} :
    {S A : Type ℓ} (P : Result A × S → Type κ) (b : Bool) (m n : Exec S A) (s : S)
    → (b ≡ true → P (m s))
    → (b ≡ false → P (n s))
    → P ((if b then m else n) s)
if-cases P true m n s h k = h refl
if-cases P false m n s h k = k refl

pub either-cases {ℓ κ} :
    {X : Type ℓ} (P : X → Type κ) (b : Bool) (x y : X)
    → (b ≡ true → P x)
    → (b ≡ false → P y)
    → P (if b then x else y)
either-cases P true x y h k = h refl
either-cases P false x y h k = k refl

-- What holds of a call and of its handler.
pub catch-holds {ℓ κ} :
    {S A : Type ℓ} (P : Result A × S → Type κ) (m : Exec S A) (h : Error → Exec S A) (s : S)
    → ((a : A) → P (ok a, (m s).1))
    → ((e : Error) → P (h e (m s).1))
    → P (catch m h s)
catch-holds P m h s k l =
    elim (m s).0 as (λ r. P (elim r [ ok a ↦ (ok a, (m s).1) | err e ↦ h e (m s).1 ])) [
      | ok a ↦ k a
      | err e ↦ l e
    ]

-- The property of what a call returns, if it returns.
unfoldable pub Returns {ℓ κ} : {A S : Type ℓ} → (A → Type κ) → Result A × S → Type κ
Returns P (ok a, s) = P a
Returns P (err e, s) = Unit

pub pure-Returns {ℓ κ} : {A S : Type ℓ} (P : A → Type κ) (a : A) (s : S) → P a → Returns P (ok a, s)
unfolding Returns
pure-Returns P a s h = h

pub raise-Returns {ℓ κ} : {A S : Type ℓ} (P : A → Type κ) (e : Error) (s : S) → Returns P (err e, s)
unfolding Returns
raise-Returns P e s = tt

pub continue-Returns {ℓ κ} :
    {A B S : Type ℓ} (P : B → Type κ) (p : Result A × S) (f : A → Exec S B)
    → ((a : A) (s : S) → Returns P (f a s))
    → Returns P (continue p f)
unfolding Returns
continue-Returns P (ok a, s) f h = h a s
continue-Returns P (err e, s) f h = tt
