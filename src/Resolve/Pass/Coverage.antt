-- ===== src/Resolve/Pass/Coverage.antt =====
-- What the config hash covers: the direct targets, and not the tools that a ToolSet contributes.
use agent_plane.Base.{
  String, Bool, true, false, List, [], ◌∷◌, ◌≡◌, refl, sym, ◌∙◌, All, All-append,
}
use agent_plane.Api.{Agent, AgentSpec, AgentWorkspaceSpec, LocalReference, Tool}
use agent_plane.Cluster.{Got, Reader, ok}
use agent_plane.Base.{Option, none, some, ◌==◌, Bool-cases, inl, inr}
use agent_plane.Resolve.Targets.{
  Kind, agent_class, model, prompt_template, tool, tool_set, skill, policy, tool_policy, credential,
  mcp_server, agent, get_object, Target, targets_for, optional_target, git_target, targets_of,
  effective_spec,
}
use agent_plane.Resolve.Pass.{Resolution, resolve_refs}
use agent_plane.Resolve.Pass.Laws.{found_refs}
use agent_plane.Resolve.Pass.Results.{agent_targets, resolve_refs-IsResolved}

abbrev is_tool : Kind → Bool
is_tool tool = true
is_tool agent_class = false
is_tool model = false
is_tool prompt_template = false
is_tool tool_set = false
is_tool skill = false
is_tool policy = false
is_tool tool_policy = false
is_tool credential = false
is_tool mcp_server = false
is_tool agent = false

abbrev IsNoTool : Target → Type 0
IsNoTool t = is_tool t.kind ≡ false

targets_for-NoTool :
    (k : Kind) (refs : List LocalReference) → is_tool k ≡ false → All IsNoTool (targets_for k refs)
targets_for-NoTool k [] h = tt
targets_for-NoTool k (ref ∷ refs) h = (h, targets_for-NoTool k refs h)

optional-NoTool :
    (k : Kind) (ref : Option LocalReference)
    → is_tool k ≡ false
    → All IsNoTool (optional_target k ref)
optional-NoTool k none h = tt
optional-NoTool k (some ref) h = (h, tt)

git-NoTool : (ws : Option AgentWorkspaceSpec) → All IsNoTool (git_target ws)
git-NoTool none = tt
git-NoTool (some ws) = elim (Bool-cases (ws.repository == "")) [
  | inl e ↦ rw e tt
  | inr e ↦
      rw e
        (elim ws.credential_ref
          as (λ c. All IsNoTool (elim c [
            | none ↦ []
            | some ref ↦ record { kind = credential; name = ref.name; git = true } ∷ []
          ])) [ none ↦ tt | some ref ↦ (refl, tt) ])
]

targets_of-NoTool : (spec eff : AgentSpec) → eff.tool_refs ≡ [] → All IsNoTool (targets_of spec eff)
unfolding targets_of
targets_of-NoTool spec eff h =
    All-append IsNoTool _ _ (optional-NoTool agent_class spec.agent_class_ref refl) (
      All-append IsNoTool _ _ (optional-NoTool model eff.model_ref refl) (
        All-append IsNoTool _ _ (optional-NoTool prompt_template eff.prompt_ref refl) (
          All-append IsNoTool _ _ (rw h tt) (
            All-append IsNoTool _ _ (targets_for-NoTool tool_set eff.tool_set_refs refl) (
              All-append IsNoTool _ _ (targets_for-NoTool skill eff.skill_refs refl) (
                All-append IsNoTool _ _ (targets_for-NoTool policy eff.policy_refs refl) (
                  All-append IsNoTool _ _ (targets_for-NoTool tool_policy eff.tool_policy_refs refl)
                    (All-append IsNoTool _ _
                      (targets_for-NoTool credential spec.credential_refs refl)
                      (git-NoTool spec.workspace)))))))))

-- The same cluster with other Tools.
abbrev pub with_tools : Reader → (String → String → Got Tool) → Reader
with_tools r tools = record r { get_tool = tools }

get_object-with_tools :
    (r : Reader) (tools : String → String → Got Tool) (ns : String) (k : Kind) (name : String)
    → is_tool k ≡ false
    → get_object (with_tools r tools) ns k name ≡ get_object r ns k name
get_object-with_tools r tools ns tool name h = cc
get_object-with_tools r tools ns _ name h = refl

found_refs-with_tools :
    (r : Reader) (tools : String → String → Got Tool) (ns : String) (ts : List Target)
    → All IsNoTool ts
    → found_refs (with_tools r tools) ns ts ≡ found_refs r ns ts
found_refs-with_tools r tools ns [] h = refl
found_refs-with_tools r tools ns (t ∷ ts) (h, hs) =
    rw (get_object-with_tools r tools ns t.kind t.name h, found_refs-with_tools r tools ns ts hs)

-- Whatever the Tools of the cluster are changed to, an Agent whose effective spec references Tools
-- only through ToolSets resolves to the same entries, which are all that its config hash is computed
-- over.
pub refs_ignore_set_tools :
    (r : Reader) (tools : String → String → Got Tool) (a : Agent) (res res' : Resolution)
    → (effective_spec r a).tool_refs ≡ []
    → resolve_refs r a ≡ ok res
    → resolve_refs (with_tools r tools) a ≡ ok res'
    → res'.refs ≡ res.refs
unfolding effective_spec
refs_ignore_set_tools r tools a res res' no_direct h k =
    (resolve_refs-IsResolved (with_tools r tools) a res' k).refs
    ∙ found_refs-with_tools r tools a.meta.ns (agent_targets r a)
        (targets_of-NoTool a.spec (effective_spec r a) no_direct)
    ∙ sym (resolve_refs-IsResolved r a res h).refs
