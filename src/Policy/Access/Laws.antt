-- ===== src/Policy/Access/Laws.antt =====
-- Merging two access rules permits exactly what both permit.
use agent_plane.Base.{
  String, Bool, true, false, not, ◌&&◌, ◌||◌, Option, none, some, List, [], ◌∷◌, ◌++◌, ◌==◌, ◌≡◌,
  refl, inl, inr, arith, eq_iff, Bool-cases, is_empty, mem, mem-append, mem_of_eq, mem-keep_first,
}
use agent_plane.Api.{AccessRule}
use agent_plane.Policy.Access.{
  denied_by, allowed_by, permits, contains_wildcard, intersect, intersect_or_keep, union,
  merge_rules, merge_access_rule,
}

denied_by_lem : (ds : List String) (n : String) → denied_by ds n ≡ (mem n ds || mem "*" ds)
unfolding denied_by
denied_by_lem [] n = refl
denied_by_lem (d ∷ ds) n = ground (arith, denied_by_lem ds n)

allowed_by_lem : (ds : List String) (n : String) → allowed_by ds n ≡ (mem n ds || mem "*" ds)
unfolding allowed_by
allowed_by_lem [] n = refl
allowed_by_lem (d ∷ ds) n = ground (arith, allowed_by_lem ds n)

contains_wildcard_lem : (vs : List String) → contains_wildcard vs ≡ mem "*" vs
unfolding contains_wildcard
contains_wildcard_lem [] = refl
contains_wildcard_lem (v ∷ vs) = ground (arith, contains_wildcard_lem vs)

mem-intersect : (n : String) (a b : List String) → mem n (intersect a b) ≡ (mem n a && mem n b)
unfolding intersect
mem-intersect n [] b = refl
mem-intersect n (v ∷ vs) b = elim (Bool-cases (v == n)) [
  | inl e ↦ ground (arith, eq_iff v n, mem_of_eq b ((eq_iff v n).0 e), mem-intersect n vs b)
  | inr e ↦ ground (arith, mem-intersect n vs b)
]

mem-union : (n : String) (a b : List String) → mem n (union a b) ≡ (mem n a || mem n b)
unfolding union
mem-union n a b = ground (arith, mem-keep_first n [] (a ++ b), mem-append n a b)

-- A list with a member is not empty.
is_empty_of_mem : (n : String) (xs : List String) → mem n xs ≡ true → is_empty xs ≡ false
is_empty_of_mem n [] h = cc
is_empty_of_mem n (x ∷ xs) h = refl

-- What a rule means, by membership alone.
permits_lem :
    (r : AccessRule) (n : String)
    → permits (some r) n ≡ (
        not (mem n r.deny || mem "*" r.deny)
        && (is_empty r.allow || mem n r.allow || mem "*" r.allow))
unfolding permits
permits_lem r n = ground (arith, denied_by_lem r.deny n, allowed_by_lem r.allow n)

mem_of_is_empty : (n : String) (xs : List String) → is_empty xs ≡ true → mem n xs ≡ false
mem_of_is_empty n [] h = refl
mem_of_is_empty n (x ∷ xs) h = cc

-- An allow list admits a name if it is empty or holds the name or "*".
abbrev admits : List String → String → Bool
admits xs n = is_empty xs || mem n xs || mem "*" xs

-- Where one of two lists is empty or their narrowing is not, it admits what both admit.
admits-intersect_or_keep :
    (a b : List String) (n : String)
    → (not (is_empty a) && not (is_empty b) && is_empty (intersect_or_keep a b)) ≡ false
    → admits (intersect_or_keep a b) n ≡ (admits a n && admits b n)
unfolding intersect_or_keep
admits-intersect_or_keep a b n h = ground (
  arith,
  contains_wildcard_lem a,
  contains_wildcard_lem b,
  mem-intersect n a b,
  mem-intersect "*" a b,
  mem_of_is_empty n a,
  mem_of_is_empty "*" a,
  mem_of_is_empty n b,
  mem_of_is_empty "*" b,
)

-- Two lists that are not empty and whose narrowing is empty admit no common name.
disjoint_admits :
    (a b : List String) (n : String)
    → (not (is_empty a) && not (is_empty b) && is_empty (intersect_or_keep a b)) ≡ true
    → (admits a n && admits b n) ≡ false
unfolding intersect_or_keep
disjoint_admits a b n h = ground (
  arith,
  contains_wildcard_lem a,
  contains_wildcard_lem b,
  mem-intersect n a b,
  mem_of_is_empty n (intersect a b),
)

permits-merge_rules :
    (a b : AccessRule) (n : String)
    → permits (some (merge_rules a b)) n ≡ (permits (some a) n && permits (some b) n)
unfolding merge_rules
permits-merge_rules a b n =
    rw (permits_lem (merge_rules a b) n, permits_lem a n, permits_lem b n)
      (elim (Bool-cases (
        not (is_empty a.allow)
        && not (is_empty b.allow)
        && is_empty (intersect_or_keep a.allow b.allow))) [
          | inl e ↦ ground (
            arith,
            disjoint_admits a.allow b.allow n e,
            mem-union "*" (union a.deny b.deny) ("*" ∷ []),
          )
          | inr e ↦ ground (
            arith,
            admits-intersect_or_keep a.allow b.allow n e,
            mem-union n a.deny b.deny,
            mem-union "*" a.deny b.deny,
          )
        ])

-- For every two rules and every name, also where a rule is absent: the merged rule permits the name
-- exactly if both rules permit it. So merging only narrows, and a disjoint pair of allow lists
-- permits nothing.
pub permits-merge_access_rule :
    (a b : Option AccessRule) (n : String)
    → permits (merge_access_rule a b) n ≡ (permits a n && permits b n)
unfolding merge_access_rule permits
permits-merge_access_rule none none n = refl
permits-merge_access_rule none (some b) n = refl
permits-merge_access_rule (some a) none n = ground arith
permits-merge_access_rule (some a) (some b) n = permits-merge_rules a b n
