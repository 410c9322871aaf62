-- ===== src/Resolve/Hash.antt =====
-- `configHash` of internal/controller/agent_controller.go: the JSON of the entries, and its digest.
use Prim.Native.Char.{code}
use Prim.Native.Nat.{◌/◌, ◌%◌}
use agent_plane.Base.{
  ℕ, String, ◌<>◌, ◌||◌, List, [], ◌∷◌, if◌then◌else◌, ltb, ◌==ℕ◌, digit, ◌≡◌, refl,
}
use agent_plane.Resolve.Pass.{ResolvedRef}

-- "\u00" and the two hexadecimal digits of a character.
unicode_escape : ℕ → String
unfolding digit
unicode_escape c = "\\u00" <> digit (c / 16) <> digit (c % 16)

-- How `encoding/json` writes one character of a string.
json_char : ℕ → String → String
unfolding unicode_escape
json_char c self =
    if c ==ℕ b'"'
    then "\\\""
    else if c ==ℕ 92
    then "\\\\"
    else if c ==ℕ 8
    then "\\b"
    else if c ==ℕ 12
    then "\\f"
    else if c ==ℕ 10
    then "\\n"
    else if c ==ℕ 13
    then "\\r"
    else if c ==ℕ 9
    then "\\t"
    else if ltb c 32 || c ==ℕ b'<' || c ==ℕ b'>' || c ==ℕ b'&'
    then unicode_escape c
    else if c ==ℕ 8232
    then "\\u2028"
    else if c ==ℕ 8233
    then "\\u2029"
    else self

json_body : String → String
unfolding json_char
json_body String.[] = ""
json_body (String.◌∷◌ c s) = json_char (code c) (String.◌∷◌ c String.[]) <> json_body s

json_string : String → String
unfolding json_body
json_string s = "\"" <> json_body s <> "\""

json_ref : ResolvedRef → String
unfolding json_string
json_ref r =
    "{\"kind\":"
    <> json_string r.kind
    <> ",\"name\":"
    <> json_string r.name
    <> ",\"resourceVersion\":"
    <> json_string r.resource_version
    <> "}"

json_refs : List ResolvedRef → String
json_refs [] = ""
json_refs (r ∷ []) = json_ref r
json_refs (r ∷ rs) = json_ref r <> "," <> json_refs rs

-- `json.Marshal`; the slice is nil where nothing was resolved.
pub marshal_refs : List ResolvedRef → String
unfolding json_ref json_refs
marshal_refs [] = "null"
marshal_refs (r ∷ rs) = "[" <> json_refs (r ∷ rs) <> "]"

-- The digest is the hexadecimal SHA-256, which the model takes as an argument.
unfoldable pub config_hash : (String → String) → List ResolvedRef → String
unfolding marshal_refs
config_hash sha256 resolved = sha256 (marshal_refs resolved)

marshal_test :
    marshal_refs (record { kind = "Tool"; name = "a<b"; resource_version = "12" } ∷ [])
    ≡ "[{\"kind\":\"Tool\",\"name\":\"a\\u003cb\",\"resourceVersion\":\"12\"}]"
unfolding marshal_refs
marshal_test = refl
