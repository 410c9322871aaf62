-- ===== src/Base/Sets.antt =====
-- A `map[string]bool` that only ever stores `true` is the list of its keys: membership, and the
-- loop that keeps the first occurrence of each name.
use Prim.Native.String.{String}
use mathlib.Core.Path.{◌≡◌, refl}
use mathlib.Core.Logic.{inl, inr}
use mathlib.Core.Bool.{Bool, true, false, not, ◌&&◌, ◌||◌}
use mathlib.Core.List.{List, [], ◌∷◌, ◌++◌}
use native.Mathlib.Omega.{arith}
use text.Mathlib.Text.{◌==◌}
use text.Mathlib.TextEquality.{eq_iff}
use text.Mathlib.TextPositions.{eq_refl}
use agent_plane.Base.Tests.{Bool-cases}

abbrev pub mem : String → List String → Bool
mem v [] = false
mem v (x ∷ xs) = x == v || mem v xs

-- The names that are not yet in `seen`, each where it first occurs.
unfoldable pub keep_first : List String → List String → List String
keep_first seen [] = []
keep_first seen (v ∷ vs) = elim (mem v seen) [
  | true ↦ keep_first seen vs
  | false ↦ v ∷ keep_first (v ∷ seen) vs
]

pub keep_first-seen :
    (seen : List String) (v : String) (vs : List String)
    → mem v seen ≡ true
    → keep_first seen (v ∷ vs) ≡ keep_first seen vs
unfolding keep_first
keep_first-seen seen v vs e = rw (keep_first, e) refl

pub keep_first-new :
    (seen : List String) (v : String) (vs : List String)
    → mem v seen ≡ false
    → keep_first seen (v ∷ vs) ≡ v ∷ keep_first (v ∷ seen) vs
unfolding keep_first
keep_first-new seen v vs e = rw (keep_first, e) refl

abbrev pub IsDistinct : List String → Type 0
IsDistinct [] = Unit
IsDistinct (v ∷ vs) = (mem v vs ≡ false) × IsDistinct vs

pub mem-append : (v : String) (xs ys : List String) → mem v (xs ++ ys) ≡ (mem v xs || mem v ys)
mem-append v [] ys = refl
mem-append v (x ∷ xs) ys = ground (arith, mem-append v xs ys)

pub mem_of_eq : {a b : String} (xs : List String) → a ≡ b → mem a xs ≡ mem b xs
mem_of_eq xs e = rw e

pub mem-keep_first :
    (v : String) (seen vs : List String)
    → mem v (keep_first seen vs) ≡ (mem v vs && not (mem v seen))
unfolding keep_first
mem-keep_first v seen [] = refl
mem-keep_first v seen (x ∷ xs) = elim (Bool-cases (x == v)) [
  | inl e ↦
      let same : x ≡ v = (eq_iff x v).0 e in
      ground (
        arith,
        eq_iff x v,
        mem_of_eq seen same,
        mem-keep_first v seen xs,
        mem-keep_first v (x ∷ seen) xs,
      )
  | inr e ↦ ground (arith, mem-keep_first v seen xs, mem-keep_first v (x ∷ seen) xs)
]

pub keep_first-IsDistinct : (seen vs : List String) → IsDistinct (keep_first seen vs)
unfolding keep_first
keep_first-IsDistinct seen [] = tt
keep_first-IsDistinct seen (x ∷ xs) = ground (
  arith,
  eq_refl x,
  mem-keep_first x (x ∷ seen) xs,
  keep_first-IsDistinct seen xs,
  keep_first-IsDistinct (x ∷ seen) xs,
)
