-- ===== src/Base/Text.antt =====
-- Text: concatenation, the order of `sort.Strings` (code points order as UTF-8 bytes do),
-- `strings.HasPrefix`, `strings.TrimRight` by one character, and the `%q`, `%v` and `%d` verbs.
use Prim.Native.Nat.{ℕ, zero, suc, ◌/◌, ◌%◌}
use Prim.Native.Char.{code}
use Prim.Native.String
use Prim.Native.String.{String}
use mathlib.Core.Path.{◌≡◌, refl}
use mathlib.Core.Logic.{◌⊎◌, inl, inr}
use mathlib.Core.Bool.{Bool, true, false, ◌||◌, ◌&&◌}
use mathlib.Core.List.{List, [], ◌∷◌}
use native.Mathlib.Omega.{arith}
use text.Mathlib.TextEquality.{Char-path}
use agent_plane.Base.Tests.{ltb, ◌==ℕ◌, if◌then◌else◌}

infixr 65 ◌<>◌
abbrev pub ◌<>◌ : String → String → String
s <> t = String.◌++◌ s t

-- The order of Go strings.
unfoldable pub str_leb : String → String → Bool
str_leb String.[] t = true
str_leb (String.◌∷◌ c s) String.[] = false
str_leb (String.◌∷◌ c s) (String.◌∷◌ d t) =
    ltb (code c) (code d) || code c ==ℕ code d && str_leb s t

pub str_leb_refl : (s : String) → str_leb s s ≡ true
unfolding str_leb
str_leb_refl String.[] = refl
str_leb_refl (String.◌∷◌ c s) = ground (arith, str_leb_refl s)

pub str_leb_total : (s t : String) → (str_leb s t ≡ true) ⊎ (str_leb t s ≡ true)
unfolding str_leb
str_leb_total String.[] t = inl refl
str_leb_total (String.◌∷◌ c s) String.[] = inr refl
str_leb_total (String.◌∷◌ c s) (String.◌∷◌ d t) = ground (arith, str_leb_total s t)

pub str_leb_trans : (s t u : String) → str_leb s t ≡ true → str_leb t u ≡ true → str_leb s u ≡ true
unfolding str_leb
str_leb_trans String.[] t u h k = refl
str_leb_trans (String.◌∷◌ c s) String.[] u h k = cc
str_leb_trans (String.◌∷◌ c s) (String.◌∷◌ d t) String.[] h k = cc
str_leb_trans (String.◌∷◌ c s) (String.◌∷◌ d t) (String.◌∷◌ e u) h k =
    ground (arith, str_leb_trans s t u)

pub str_leb_antisymm : (s t : String) → str_leb s t ≡ true → str_leb t s ≡ true → s ≡ t
unfolding str_leb
str_leb_antisymm String.[] String.[] h k = refl
str_leb_antisymm String.[] (String.◌∷◌ d t) h k = cc
str_leb_antisymm (String.◌∷◌ c s) String.[] h k = cc
str_leb_antisymm (String.◌∷◌ c s) (String.◌∷◌ d t) h k =
    let same : code c ≡ code d = ground arith in
    let rest : s ≡ t = str_leb_antisymm s t (ground arith) (ground arith) in cc (Char-path c d same)

-- `strings.HasPrefix(s, prefix)`.
unfoldable pub has_prefix : String → String → Bool
has_prefix s String.[] = true
has_prefix String.[] (String.◌∷◌ d t) = false
has_prefix (String.◌∷◌ c s) (String.◌∷◌ d t) = code c ==ℕ code d && has_prefix s t

abbrev pub is_nil : String → Bool
is_nil String.[] = true
is_nil (String.◌∷◌ c s) = false

-- `strings.TrimRight(s, cutset)` for a cutset of one character, given by its code.
unfoldable pub trim_right : String → ℕ → String
trim_right String.[] cut = String.[]
trim_right (String.◌∷◌ c s) cut =
    let rest = trim_right s cut in
    if code c ==ℕ cut && is_nil rest then String.[] else String.◌∷◌ c rest

-- `strings.Join(xs, " ")`.
unfoldable pub join_words : List String → String
join_words [] = ""
join_words (x ∷ []) = x
join_words (x ∷ xs) = x <> " " <> join_words xs

-- `%v` of a slice of strings.
unfoldable pub show_list : List String → String
unfolding join_words
show_list xs = "[" <> join_words xs <> "]"

-- The digit of a value below 16.
digit_in : List String → ℕ → String
digit_in [] n = ""
digit_in (d ∷ ds) zero = d
digit_in (d ∷ ds) (suc n) = digit_in ds n

unfoldable pub digit : ℕ → String
unfolding digit_in
digit = digit_in (
    "0" ∷ "1" ∷ "2" ∷ "3" ∷ "4" ∷ "5" ∷ "6" ∷ "7" ∷ "8" ∷ "9" ∷ "a" ∷ "b" ∷ "c" ∷ "d" ∷ "e" ∷ "f"
    ∷ [])

-- `%d`. A number has at most as many digits as its value plus one, which is the fuel.
show_digits : ℕ → ℕ → String → String
show_digits zero n acc = acc
show_digits (suc fuel) n acc =
    let more = show_digits fuel (n / 10) (digit (n % 10) <> acc) in
    if ltb n 10 then digit n <> acc else more

unfoldable pub show_nat : ℕ → String
unfolding show_digits digit
show_nat n = show_digits (suc n) n ""

-- How `strconv.Quote` writes one character. Characters above ASCII are taken as printable.
escape : ℕ → String → String
unfolding digit
escape c self =
    if c ==ℕ b'"'
    then "\\\""
    else if c ==ℕ 92
    then "\\\\"
    else if c ==ℕ 7
    then "\\a"
    else if c ==ℕ 8
    then "\\b"
    else if c ==ℕ 12
    then "\\f"
    else if c ==ℕ 10
    then "\\n"
    else if c ==ℕ 13
    then "\\r"
    else if c ==ℕ 9
    then "\\t"
    else if c ==ℕ 11
    then "\\v"
    else if ltb c 32 || c ==ℕ 127
    then "\\x" <> digit (c / 16) <> digit (c % 16)
    else self

quote_body : String → String
unfolding escape
quote_body String.[] = ""
quote_body (String.◌∷◌ c s) = escape (code c) (String.◌∷◌ c String.[]) <> quote_body s

-- `%q` of a string.
unfoldable pub quote : String → String
unfolding quote_body
quote s = "\"" <> quote_body s <> "\""

quote_test : quote "a\"b" ≡ "\"a\\\"b\""
unfolding quote
quote_test = refl

show_nat_test : show_nat 9090 ≡ "9090"
unfolding show_nat
show_nat_test = refl
