-- ===== src/Index/Watches/Coverage.antt =====
-- Every change of an object that a pass looks up wakes the object that the pass is over.
use agent_plane.Base.{
  String, true, false, Option, none, some, List, [], ◌∷◌, ◌++◌, ◌==◌, ◌≡◌, refl, arith, eq_refl,
  Option-cases, inl, inr, mem, All,
}
use agent_plane.Api.{LocalReference, Skill, ConfigMapKeyReference}
use agent_plane.Resolve.Targets.{
  Kind, model, prompt_template, policy, tool, credential, mcp_server, agent, Target, targets_for,
  optional_target,
}
use agent_plane.Resolve.Pass.{names_of}
use agent_plane.Index.{ref_name, has_request}
use agent_plane.Index.Routes.{mem-ref_names_of, mem-ref_name}
use agent_plane.Index.Watches.{
  Dependent, a_class, a_tool, a_set, a_model, a_skill, a_credential, a_trigger, a_policy,
  a_tool_policy, a_prompt, dependent_meta, controller_of, WatchField, class_model, class_prompt,
  class_policies, tool_server, tool_agent, set_tools, model_credential, skill_config_map,
  trigger_agent, trigger_credential, credential_secret, watch_keys, Watched, of_kind, config_map,
  secret, watch_of, WatchLister, watch_requests, lookups_of_targets, lookups,
}
use agent_plane.Index.Watches.Laws.{IsListed, request_for, key-wakes}

-- A change of what was looked up, by a name that is not empty, wakes the object.
abbrev pub WakesOn : WatchLister → Dependent → Watched × String → Type 0
WakesOn l o (watched, name) =
    (name == "") ≡ false
    → has_request (request_for (dependent_meta o))
        (watch_requests l (controller_of o) watched (dependent_meta o).ns name)
      ≡ true

module _ (l : WatchLister) (o : Dependent) (listed : IsListed l o) where
  refs_wake :
      (kind : Kind) (field : WatchField) (refs : List LocalReference)
      → watch_of (controller_of o) (of_kind kind) ≡ some field
      → ((name : String)
          → (name == "") ≡ false
          → mem name (names_of refs) ≡ true
          → mem name (watch_keys field o) ≡ true)
      → All (WakesOn l o) (lookups_of_targets (targets_for kind refs))
  refs_wake kind field [] watched f = tt
  refs_wake kind field (ref ∷ refs) watched f = (
    (λ n.
        key-wakes l o (of_kind kind) field ref.name listed watched
          (f ref.name n (rw (eq_refl ref.name) refl))),
    refs_wake kind field refs watched (λ name n h. f name n (ground (arith, h))),
  )

  ref_wakes :
      (kind : Kind) (field : WatchField) (ref : Option LocalReference)
      → watch_of (controller_of o) (of_kind kind) ≡ some field
      → watch_keys field o ≡ ref_name ref
      → All (WakesOn l o) (lookups_of_targets (optional_target kind ref))
  ref_wakes kind field none watched keys = tt
  ref_wakes kind field (some ref) watched keys = (
    (λ n.
        key-wakes l o (of_kind kind) field ref.name listed watched (rw keys (mem-ref_name ref n))),
    tt,
  )

All-lookups-append :
    (P : Watched × String → Type 0) (xs ys : List Target)
    → All P (lookups_of_targets xs)
    → All P (lookups_of_targets ys)
    → All P (lookups_of_targets (xs ++ ys))
All-lookups-append P [] ys h k = k
All-lookups-append P (x ∷ xs) ys (p, h) k = (p, All-lookups-append P xs ys h k)

config_map_wakes :
    (l : WatchLister) (s : Skill) (ref : ConfigMapKeyReference)
    → IsListed l (a_skill s)
    → s.spec.content_config_map_ref ≡ some ref
    → WakesOn l (a_skill s) (config_map, ref.name)
unfolding watch_of watch_keys
config_map_wakes l s ref listed named n =
    key-wakes l (a_skill s) config_map skill_config_map ref.name listed refl
      (rw (named, n) (rw (eq_refl ref.name) refl))

-- Where the index answers for an object of any kind but Agent and MCPServer, a change of anything
-- that the pass over it looks up, by a name that is not empty, wakes it: it is among the requests of
-- the watch. The workloads that a Trigger owns are not among what it looks up here.
pub lookup_changes-wake :
    (l : WatchLister) (o : Dependent) → IsListed l o → All (WakesOn l o) (lookups o)
unfolding watch_of watch_keys
lookup_changes-wake l (a_class c) listed =
    All-lookups-append (WakesOn l (a_class c)) (optional_target model c.spec.default_model_ref) _
      (ref_wakes l (a_class c) listed model class_model _ refl refl)
      (All-lookups-append (WakesOn l (a_class c))
        (optional_target prompt_template c.spec.default_prompt_ref) _
        (ref_wakes l (a_class c) listed prompt_template class_prompt _ refl refl)
        (refs_wake l (a_class c) listed policy class_policies _ refl
          (λ name n h. mem-ref_names_of name c.spec.default_policy_refs n h)))
lookup_changes-wake l (a_tool t) listed =
    All-lookups-append (WakesOn l (a_tool t)) (optional_target mcp_server t.spec.mcp_server_ref) _
      (ref_wakes l (a_tool t) listed mcp_server tool_server _ refl refl)
      (ref_wakes l (a_tool t) listed agent tool_agent _ refl refl)
lookup_changes-wake l (a_set s) listed =
    refs_wake l (a_set s) listed tool set_tools s.spec.tool_refs refl
      (λ name n h. mem-ref_names_of name s.spec.tool_refs n h)
lookup_changes-wake l (a_model m) listed =
    ref_wakes l (a_model m) listed credential model_credential m.spec.credential_ref refl refl
lookup_changes-wake l (a_skill s) listed = elim (Option-cases s.spec.content_config_map_ref) [
  | inl none_named ↦ rw none_named tt
  | inr (ref, named) ↦ rw named (config_map_wakes l s ref listed named, tt)
]
lookup_changes-wake l (a_credential c) listed = (
  (λ n.
      key-wakes l (a_credential c) secret credential_secret c.spec.secret_ref.name listed refl
        (rw n (rw (eq_refl c.spec.secret_ref.name) refl))),
  tt,
)
lookup_changes-wake l (a_trigger t) listed = (
  (λ n.
      key-wakes l (a_trigger t) (of_kind agent) trigger_agent t.spec.agent_ref.name listed refl
        (rw n (rw (eq_refl t.spec.agent_ref.name) refl))),
  ref_wakes l (a_trigger t) listed credential trigger_credential t.spec.credential_ref refl refl,
)
lookup_changes-wake l (a_policy p) listed = tt
lookup_changes-wake l (a_tool_policy p) listed = tt
lookup_changes-wake l (a_prompt p) listed = tt
