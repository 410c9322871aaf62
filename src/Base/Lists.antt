-- ===== src/Base/Lists.antt =====
-- Lists: lengths over the native numbers, Boolean quantifiers, and a predicate on every element.
use Prim.Native.Nat.{ℕ, suc, ◌+◌}
use mathlib.Core.Path.{◌≡◌, refl}
use mathlib.Core.Bool.{Bool, true, false, ◌&&◌, ◌||◌}
use mathlib.Core.Option.{Option, none, some}
use mathlib.Core.List.{List, [], ◌∷◌, ◌++◌}
use native.Mathlib.Omega.{arith}

module _ {ℓ} {A : Type ℓ} where
  abbrev pub length : List A → ℕ
  length [] = 0
  length (x ∷ xs) = suc (length xs)

  pub length-append : (xs ys : List A) → length (xs ++ ys) ≡ length xs + length ys
  length-append [] ys = omega arith
  length-append (x ∷ xs) ys = omega (arith, length-append xs ys)

  abbrev pub is_empty : List A → Bool
  is_empty [] = true
  is_empty (x ∷ xs) = false

  abbrev pub all : (A → Bool) → List A → Bool
  all p [] = true
  all p (x ∷ xs) = p x && all p xs

  abbrev pub any : (A → Bool) → List A → Bool
  any p [] = false
  any p (x ∷ xs) = p x || any p xs

  abbrev pub find : (A → Bool) → List A → Option A
  find p [] = none
  find p (x ∷ xs) = elim (p x) [ true ↦ some x | false ↦ find p xs ]

  pub all-append : (p : A → Bool) (xs ys : List A) → all p (xs ++ ys) ≡ (all p xs && all p ys)
  all-append p [] ys = refl
  all-append p (x ∷ xs) ys = ground (arith, all-append p xs ys)

  pub any-append : (p : A → Bool) (xs ys : List A) → any p (xs ++ ys) ≡ (any p xs || any p ys)
  any-append p [] ys = refl
  any-append p (x ∷ xs) ys = ground (arith, any-append p xs ys)

module _ {ℓ κ} {A : Type ℓ} (P : A → Type κ) where
  abbrev pub All : List A → Type κ
  All [] = Unit
  All (x ∷ xs) = P x × All xs

  pub All-append : (xs ys : List A) → All xs → All ys → All (xs ++ ys)
  All-append [] ys h k = k
  All-append (x ∷ xs) ys (p, h) k = (p, All-append xs ys h k)

  pub All-of_append : (xs ys : List A) → All (xs ++ ys) → All xs × All ys
  All-of_append [] ys h = (tt, h)
  All-of_append (x ∷ xs) ys (p, h) = let (left, right) = All-of_append xs ys h in ((p, left), right)

module _ {ℓ} {A : Type ℓ} (p : A → Bool) where
  pub All-of_all : (xs : List A) → all p xs ≡ true → All (λ x. p x ≡ true) xs
  All-of_all [] h = tt
  All-of_all (x ∷ xs) h = (ground arith, All-of_all xs (ground arith))

  pub all_of_All : (xs : List A) → All (λ x. p x ≡ true) xs → all p xs ≡ true
  all_of_All [] h = refl
  all_of_All (x ∷ xs) (h, hs) = rw h (all_of_All xs hs)

  pub all-eq-true : (xs : List A) → ((x : A) → p x ≡ true) → all p xs ≡ true
  all-eq-true [] h = refl
  all-eq-true (x ∷ xs) h = rw (h x) (all-eq-true xs h)

pub All-map {ℓ κ μ} :
    {A : Type ℓ} {P : A → Type κ} {Q : A → Type μ}
    → ((x : A) → P x → Q x)
    → (xs : List A) → All P xs
    → All Q xs
All-map f [] h = tt
All-map f (x ∷ xs) (h, hs) = (f x h, All-map f xs hs)
