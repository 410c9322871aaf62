-- ===== src/Registry/Server/Routes.antt =====
-- Which paths reach the handlers.
use Prim.Native.Char.{code}
use text.Mathlib.TextLemmas.{nil-append, cons-append}
use agent_plane.Base.{
  String, ◌<>◌, Bool, false, ◌||◌, none, some, [], ◌∷◌, ◌==ℕ◌, ◌≡◌, refl, ◌∙◌, ap, arith,
}
use agent_plane.Registry.Server.{strip, trim_prefix, split, config, watch, dispatch, handle_agent}

abbrev pub has_slash : String → Bool
has_slash String.[] = false
has_slash (String.◌∷◌ c s) = code c ==ℕ b'/' || has_slash s

strip_nil : (s : String) → strip s "" ≡ some s
unfolding strip
strip_nil String.[] = refl
strip_nil (String.◌∷◌ c s) = refl

strip-append : (p s : String) → strip (p <> s) p ≡ some s
unfolding strip
strip-append String.[] s = strip_nil ("" <> s) ∙ ap some (nil-append s)
strip-append (String.◌∷◌ c p) s =
    ap (λ x. strip x (String.◌∷◌ c p)) (cons-append c p s) ∙ ground (arith, strip-append p s)

split_word : (w : String) → has_slash w ≡ false → split w ≡ w ∷ []
unfolding split
split_word String.[] h = refl
split_word (String.◌∷◌ c w) h =
    let other : (code c ==ℕ b'/') ≡ false = ground (arith, h) in
    rw (split, other, split_word w (ground (arith, h)))
      (ap (λ x. x ∷ []) (cons-append c "" w ∙ ap (λ x. String.◌∷◌ c x) (nil-append w)))

split-slash : (rest : String) → split ("/" <> rest) ≡ "" ∷ split rest
unfolding split
split-slash rest = ap split (cons-append "/" "" rest) ∙ ap (λ x. "" ∷ split x) (nil-append rest)

split-append : (w rest : String) → has_slash w ≡ false → split (w <> ("/" <> rest)) ≡ w ∷ split rest
unfolding split
split-append String.[] rest h = ap split (nil-append ("/" <> rest)) ∙ split-slash rest
split-append (String.◌∷◌ c w) rest h =
    let other : (code c ==ℕ b'/') ≡ false = ground (arith, h) in
    ap split (cons-append c w ("/" <> rest))
    ∙ rw (split, other, split-append w rest (ground (arith, h)))
        (ap (λ x. x ∷ split rest) (cons-append c "" w ∙ ap (λ x. String.◌∷◌ c x) (nil-append w)))

abbrev pub path_of : String → String → String → String
path_of ns name verb = "/v1/agents/" <> (ns <> ("/" <> (name <> ("/" <> verb))))

parts_of :
    (ns name verb : String)
    → has_slash ns ≡ false
    → has_slash name ≡ false
    → has_slash verb ≡ false
    → split (trim_prefix (path_of ns name verb) "/v1/agents/") ≡ ns ∷ name ∷ verb ∷ []
parts_of ns name verb a b c =
    let rest = ns <> ("/" <> (name <> ("/" <> verb))) in
    ap (λ x. split (elim x [ none ↦ path_of ns name verb | some r ↦ r ]))
      (strip-append "/v1/agents/" rest)
    ∙ split-append ns (name <> ("/" <> verb)) a
    ∙ ap (λ x. ns ∷ x) (split-append name verb b ∙ ap (λ x. name ∷ x) (split_word verb c))

-- For a namespace and a name without a slash, the path with "config" at its end is dispatched to the
-- snapshot of that Agent, and the one with "watch" to its stream.
pub handle_agent-path_of :
    (ns name : String)
    → has_slash ns ≡ false
    → has_slash name ≡ false
    → (handle_agent (path_of ns name "config") ≡ config ns name)
      × (handle_agent (path_of ns name "watch") ≡ watch ns name)
unfolding handle_agent dispatch
handle_agent-path_of ns name a b = (
  ap dispatch (parts_of ns name "config" a b refl),
  ap dispatch (parts_of ns name "watch" a b refl),
)
