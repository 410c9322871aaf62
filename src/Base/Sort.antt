-- ===== src/Base/Sort.antt =====
-- `sort.Strings`. Go's order on strings is total and antisymmetric, so the sorted list is unique
-- and any sorting routine computes it; this one is insertion sort.
use Prim.Native.String.{String}
use mathlib.Core.Path.{◌≡◌, refl}
use mathlib.Core.Logic.{inl, inr}
use mathlib.Core.Bool.{true, false}
use mathlib.Core.List.{List, [], ◌∷◌, Perm}
use mathlib.Core.List.Perm
use native.Mathlib.Omega.{arith}
use agent_plane.Base.Tests.{Bool-cases, if◌then◌else◌}
use agent_plane.Base.Lists.{is_empty}
use agent_plane.Base.Text.{str_leb, str_leb_total, str_leb_trans, str_leb_antisymm}

insert_sorted : String → List String → List String
insert_sorted s [] = s ∷ []
insert_sorted s (x ∷ xs) = if str_leb s x then s ∷ x ∷ xs else x ∷ insert_sorted s xs

unfoldable pub sort_strings : List String → List String
unfolding insert_sorted
sort_strings [] = []
sort_strings (x ∷ xs) = insert_sorted x (sort_strings xs)

abbrev pub IsSorted : List String → Type 0
IsSorted [] = Unit
IsSorted (x ∷ []) = Unit
IsSorted (x ∷ y ∷ ys) = (str_leb x y ≡ true) × IsSorted (y ∷ ys)

abbrev IsBelow : String → List String → Type 0
IsBelow s [] = Unit
IsBelow s (x ∷ xs) = str_leb s x ≡ true

IsSorted-cons : (x : String) (xs : List String) → IsBelow x xs → IsSorted xs → IsSorted (x ∷ xs)
IsSorted-cons x [] b h = tt
IsSorted-cons x (y ∷ ys) b h = (b, h)

IsSorted-tail : (x : String) (xs : List String) → IsSorted (x ∷ xs) → IsBelow x xs × IsSorted xs
IsSorted-tail x [] h = (tt, tt)
IsSorted-tail x (y ∷ ys) h = h

insert_sorted-IsBelow :
    (x s : String) (xs : List String)
    → str_leb x s ≡ true
    → IsBelow x xs
    → IsBelow x (insert_sorted s xs)
unfolding insert_sorted
insert_sorted-IsBelow x s [] h b = h
insert_sorted-IsBelow x s (y ∷ ys) h b = elim (Bool-cases (str_leb s y)) [
  | inl e ↦ rw e h
  | inr e ↦ rw e b
]

insert_sorted-IsSorted :
    (s : String) (xs : List String) → IsSorted xs → IsSorted (insert_sorted s xs)
unfolding insert_sorted
insert_sorted-IsSorted s [] h = tt
insert_sorted-IsSorted s (y ∷ ys) h = elim (Bool-cases (str_leb s y)) [
  | inl e ↦ rw e (e, h)
  | inr e ↦
      let above : str_leb y s ≡ true = ground (arith, str_leb_total s y) in
      let (below, sorted) = IsSorted-tail y ys h in
      rw e (
        IsSorted-cons y (insert_sorted s ys) (insert_sorted-IsBelow y s ys above below)
          (insert_sorted-IsSorted s ys sorted))
]

pub sort_strings-IsSorted : (xs : List String) → IsSorted (sort_strings xs)
unfolding sort_strings
sort_strings-IsSorted [] = tt
sort_strings-IsSorted (x ∷ xs) =
    insert_sorted-IsSorted x (sort_strings xs) (sort_strings-IsSorted xs)

insert_sorted-perm : (s : String) (xs : List String) → Perm (insert_sorted s xs) (s ∷ xs)
unfolding insert_sorted
insert_sorted-perm s [] = Perm.refl (s ∷ [])
insert_sorted-perm s (y ∷ ys) = elim (Bool-cases (str_leb s y)) [
  | inl e ↦ rw e (Perm.refl (s ∷ y ∷ ys))
  | inr e ↦ rw e (Perm.trans (Perm.cons y (insert_sorted-perm s ys)) (Perm.swap s y ys))
]

pub sort_strings-perm : (xs : List String) → Perm (sort_strings xs) xs
unfolding sort_strings
sort_strings-perm [] = Perm.refl []
sort_strings-perm (x ∷ xs) =
    Perm.trans (insert_sorted-perm x (sort_strings xs)) (Perm.cons x (sort_strings-perm xs))

insert_sorted-ne : (s : String) (xs : List String) → is_empty (insert_sorted s xs) ≡ false
unfolding insert_sorted
insert_sorted-ne s [] = refl
insert_sorted-ne s (x ∷ xs) = ground arith

-- Sorting loses nothing: the result is empty only where the input is.
pub is_empty-sort_strings : (xs : List String) → is_empty (sort_strings xs) ≡ is_empty xs
unfolding sort_strings
is_empty-sort_strings [] = refl
is_empty-sort_strings (x ∷ xs) = insert_sorted-ne x (sort_strings xs)

-- Inserting in either order gives the same list, since the order is antisymmetric.
insert_sorted_comm :
    (s t : String) (xs : List String)
    → insert_sorted s (insert_sorted t xs) ≡ insert_sorted t (insert_sorted s xs)
unfolding insert_sorted
insert_sorted_comm s t [] = ground (arith, str_leb_total s t, str_leb_antisymm s t)
insert_sorted_comm s t (x ∷ xs) = ground (
  arith,
  str_leb_total s t,
  str_leb_antisymm s t,
  str_leb_trans s t x,
  str_leb_trans t s x,
  str_leb_total s x,
  str_leb_total t x,
  str_leb_trans s x t,
  str_leb_trans t x s,
  insert_sorted_comm s t xs,
)
