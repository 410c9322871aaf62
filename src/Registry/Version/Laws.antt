-- ===== src/Registry/Version/Laws.antt =====
-- The order in which frames are delivered.
use Prim.Native.Char.{code}
use Prim.Native.Nat.{◌*◌, ◌^◌}
use agent_plane.Base.{
  ℕ, String, ◌+◌, ◌-◌, ◌<◌, true, Option, none, some, ◌==◌, ◌≡◌, refl, ◌↔◌, arith, eq_iff,
  Bool-cases, Option-cases, inl, inr, ap, ◌∙◌,
}
use agent_plane.Registry.Version.{parse_digits, parse_uint, newer, is_newer_rv}

parse_digits-lt : (n : ℕ) (s : String) (m : ℕ) → n < 2 ^ 64 → parse_digits n s ≡ some m → m < 2 ^ 64
unfolding parse_digits
parse_digits-lt n String.[] m h e = ground arith
parse_digits-lt n (String.◌∷◌ c s) m h e =
    ground (arith, parse_digits-lt (n * 10 + (code c - 48)) s m)

parse_uint_nil : parse_uint "" ≡ none
unfolding parse_uint
parse_uint_nil = refl

newer-none : (rv : Option ℕ) → true ≡ newer rv none
newer-none none = refl
newer-none (some n) = refl

-- When a version is newer than a floor.
pub data IsNewer (rv floor : String) : Type 0 where
  by_number :
      (n f : ℕ) → parse_uint rv ≡ some n → parse_uint floor ≡ some f → f < n → IsNewer rv floor
  odd_version : parse_uint rv ≡ none → IsNewer rv floor
  odd_floor : parse_uint floor ≡ none → IsNewer rv floor

pub is_newer_rv_lem :
    (rv floor : String) → is_newer_rv rv floor ≡ newer (parse_uint rv) (parse_uint floor)
unfolding is_newer_rv
is_newer_rv_lem rv floor = elim (Bool-cases (floor == "")) [
  | inl e ↦
      let unset : parse_uint floor ≡ none =
        ap parse_uint ((eq_iff floor "").0 e) ∙ parse_uint_nil in
      rw (e, unset) (newer-none (parse_uint rv))
  | inr e ↦ rw e
]

newer_complete : (rv floor : String) → IsNewer rv floor → is_newer_rv rv floor ≡ true
newer_complete rv floor (by_number n f e k lt) = ground (arith, is_newer_rv_lem rv floor)
newer_complete rv floor (odd_version e) = ground (arith, is_newer_rv_lem rv floor)
newer_complete rv floor (odd_floor k) = ground (arith, is_newer_rv_lem rv floor)

-- A version counts as newer exactly if both are decimal numbers of 64 bits and it is the greater, or
-- if either of the two is not such a number.
pub is_newer_rv_iff : (rv floor : String) → (is_newer_rv rv floor ≡ true) ↔ IsNewer rv floor
is_newer_rv_iff rv floor = (
  λ h. elim (Option-cases (parse_uint rv)) [
    | inl e ↦ odd_version e
    | inr (n, e) ↦ elim (Option-cases (parse_uint floor)) [
      | inl k ↦ odd_floor k
      | inr (f, k) ↦ by_number n f e k (ground (arith, is_newer_rv_lem rv floor))
    ]
  ],
  newer_complete rv floor,
)

-- A number that `ParseUint` reads has at most 64 bits.
pub parse_uint-lt : (s : String) (n : ℕ) → parse_uint s ≡ some n → n < 2 ^ 64
unfolding parse_uint
parse_uint-lt String.[] n h = cc
parse_uint-lt (String.◌∷◌ c s) n h = parse_digits-lt 0 (String.◌∷◌ c s) n (omega arith) h
