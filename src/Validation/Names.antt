-- ===== src/Validation/Names.antt =====
-- `envNames`, `refNames` and `firstDuplicate` of api/v1alpha1/validation.go.
pub mod Laws
use agent_plane.Base.{
  String, ◌<>◌, Option, none, some, List, [], ◌∷◌, ◌==◌, if◌then◌else◌, mem, map, quote,
}
use agent_plane.Api.{LocalReference, EnvVar}

abbrev pub env_names : List EnvVar → List String
env_names env = map (λ e. e.name) env

abbrev pub ref_names : List LocalReference → List String
ref_names refs = map (λ r. r.name) refs

-- The loop of `firstDuplicate`, with the names seen so far.
duplicate_from : List String → List String → String
duplicate_from seen [] = ""
duplicate_from seen (n ∷ ns) = if mem n seen then n else duplicate_from (n ∷ seen) ns

unfoldable pub first_duplicate : List String → String
unfolding duplicate_from
first_duplicate names = duplicate_from [] names

-- `if dup := firstDuplicate(names); dup != "" { return fmt.Errorf("duplicate <what> %q", dup) }`
unfoldable pub duplicate_error : String → List String → Option String
duplicate_error what names =
    let dup = first_duplicate names in
    if dup == "" then none else some ("duplicate " <> what <> " " <> quote dup)
