-- ===== src/Registry/Version.antt =====
-- `isNewerRV` of cmd/registry/main.go, with `strconv.ParseUint(s, 10, 64)`.
pub mod Laws
use Prim.Native.Char.{code}
use Prim.Native.Nat.{◌*◌, ◌^◌}
use agent_plane.Base.{
  ℕ, String, ◌+◌, ◌-◌, Bool, true, false, ◌&&◌, ◌||◌, not, Option, none, some, ◌==◌, if◌then◌else◌,
  ltb,
}

-- The digits of a number, after the value of those already read. A value past 64 bits is an error,
-- and so is any character but a decimal digit.
parse_digits : ℕ → String → Option ℕ
parse_digits n String.[] = some n
parse_digits n (String.◌∷◌ c s) =
    let next = n * 10 + (code c - 48) in
    let rest = parse_digits next s in
    if ltb (code c) 48 || ltb 57 (code c) then none else if ltb next (2 ^ 64) then rest else none

unfoldable pub parse_uint : String → Option ℕ
unfolding parse_digits
parse_uint String.[] = none
parse_uint (String.◌∷◌ c s) = parse_digits 0 (String.◌∷◌ c s)

-- The comparison of two parsed versions; one that does not parse counts as newer.
abbrev newer : Option ℕ → Option ℕ → Bool
newer none floor = true
newer (some n) none = true
newer (some n) (some f) = ltb f n

unfoldable pub is_newer_rv : String → String → Bool
is_newer_rv rv floor = if floor == "" then true else newer (parse_uint rv) (parse_uint floor)
