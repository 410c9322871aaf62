-- ===== src/Validation/Names/Laws.antt =====
-- `firstDuplicate` finds a repeated name, unless the repeated name is empty.
use agent_plane.Base.{
  String, Bool, true, false, not, ◌&&◌, List, [], ◌∷◌, ◌==◌, ◌≡◌, refl, sym, ◌∙◌, ◌↔◌, arith,
  eq_iff, mem, IsDistinct, is_some,
}
use agent_plane.Validation.Names.{duplicate_from, first_duplicate, duplicate_error}

-- No name is repeated, as a test.
abbrev pub distinct : List String → Bool
distinct [] = true
distinct (n ∷ ns) = not (mem n ns) && distinct ns

pub distinct-eq-true_iff : (ns : List String) → (distinct ns ≡ true) ↔ IsDistinct ns
distinct-eq-true_iff [] = (λ h. tt, λ h. refl)
distinct-eq-true_iff (n ∷ ns) = (
  λ h. (ground arith, (distinct-eq-true_iff ns).0 (ground arith)),
  λ h. ground (arith, h.0, (distinct-eq-true_iff ns).1 h.1),
)

-- None of the names has been seen.
abbrev pub fresh : List String → List String → Bool
fresh seen [] = true
fresh seen (n ∷ ns) = not (mem n seen) && fresh seen ns

pub fresh-cons :
    (s : String) (seen ns : List String) → fresh (s ∷ seen) ns ≡ (not (mem s ns) && fresh seen ns)
fresh-cons s seen [] = refl
fresh-cons s seen (n ∷ ns) = ground (arith, fresh-cons s seen ns, eq_iff s n, eq_iff n s)

pub fresh_nil : (ns : List String) → fresh [] ns ≡ true
fresh_nil [] = refl
fresh_nil (n ∷ ns) = fresh_nil ns

duplicate_from_lem :
    (seen ns : List String)
    → mem "" ns ≡ false
    → (duplicate_from seen ns == "") ≡ (fresh seen ns && distinct ns)
unfolding duplicate_from
duplicate_from_lem seen [] h = refl
duplicate_from_lem seen (n ∷ ns) h =
    ground (arith, fresh-cons n seen ns, duplicate_from_lem (n ∷ seen) ns, eq_iff n "")

-- Where no name is empty, `firstDuplicate` answers "" exactly if no name is repeated.
pub first_duplicate-eq-nil_iff :
    (names : List String) → mem "" names ≡ false → (first_duplicate names ≡ "") ↔ IsDistinct names
unfolding first_duplicate
first_duplicate-eq-nil_iff names h =
    let same : (first_duplicate names == "") ≡ distinct names =
      ground (arith, duplicate_from_lem [] names h, fresh_nil names) in
    (
      λ e. (distinct-eq-true_iff names).0 (sym same ∙ (eq_iff _ _).1 e),
      λ d. (eq_iff _ _).0 (same ∙ (distinct-eq-true_iff names).1 d),
    )

-- The check passes where no name is repeated, and, if no name is empty, only there.
pub duplicate_error_lem :
    (what : String) (names : List String)
    → mem "" names ≡ false
    → not (is_some (duplicate_error what names)) ≡ distinct names
unfolding duplicate_error first_duplicate
duplicate_error_lem what names h = ground (arith, duplicate_from_lem [] names h, fresh_nil names)
