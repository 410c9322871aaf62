-- ===== src/Index/Watches/Stability.antt =====
-- That no change which matters to the status of an object is missed.
use mathlib.Core.Path.{subst}
use agent_plane.Base.{
  String, true, false, List, [], ◌∷◌, ◌==◌, ◌≡◌, ◌⊎◌, arith, eq_iff, Bool-cases, inl, inr, All,
}
use agent_plane.Cluster.{Reader, StatusConditions}
use agent_plane.Reconcile.Workloads.{OwnedObjects}
use agent_plane.Index.{has_request}
use agent_plane.Index.Stability.{Kind-discrete, extend}
use agent_plane.Index.Watches.{
  Dependent, dependent_meta, controller_of, Watched, WatchLister, watch_requests, lookups,
}
use agent_plane.Index.Watches.Laws.{IsListed, request_for}
use agent_plane.Index.Watches.Coverage.{WakesOn, lookup_changes-wake}
use agent_plane.Index.Watches.Frame.{AnswersAlike, reconcile_dependent, reconcile_dependent-frame}

-- The cluster after a change of one object: every other lookup in the namespace is answered as before.
abbrev pub DiffersOnlyAt : Reader → Reader → String → Watched → String → Type 0
DiffersOnlyAt r r' ns watched name =
    (v : Watched) (n : String) → ((v ≡ watched) × (n ≡ name) → ⊥) → AnswersAlike r r' ns (v, n)

Watched-discrete : Discrete Watched
Watched-discrete = hlevel Kind-discrete

alike_or_hit :
    (r r' : Reader) (ns : String) (watched : Watched) (name : String)
    (P : Watched × String → Type 0)
    → DiffersOnlyAt r r' ns watched name
    → (ks : List (Watched × String)) → All P ks
    → All (AnswersAlike r r' ns) ks ⊎ P (watched, name)
alike_or_hit r r' ns watched name P change [] h = inl tt
alike_or_hit r r' ns watched name P change ((v, n) ∷ ks) (h, hs) =
    let rest = alike_or_hit r r' ns watched name P change ks hs in
    elim (Watched-discrete v watched) [
      | no other ↦ extend (change v n (λ e. other e.0)) rest
      | yes same ↦ elim (Bool-cases (n == name)) [
        | inl e ↦
            inr (subst (λ x. P (watched, x)) ((eq_iff _ _).0 e) (subst (λ x. P (x, n)) same (h)))
        | inr e ↦ extend (change v n (λ both. ground (arith, eq_iff n name, e, both.1))) rest
      ]
    ]

-- For an object of any kind but Agent and MCPServer, where the index answers for it: an object of its
-- namespace, of one of the API's kinds or a ConfigMap or Secret, and with a name that is not empty,
-- changes. Then what the pass comes to, its status or its error, is as before, or the object is among
-- the requests of the watch. What the API server answers on the workloads that the pass owns is held
-- fixed.
pub change-wakes_or_keeps_status :
    (sc : StatusConditions) (w : OwnedObjects) (l : WatchLister) (r r' : Reader) (o : Dependent)
    (watched : Watched) (name : String)
    → IsListed l o
    → (name == "") ≡ false
    → DiffersOnlyAt r r' (dependent_meta o).ns watched name
    → (reconcile_dependent sc w r o ≡ reconcile_dependent sc w r' o)
      ⊎ (has_request
            (request_for (dependent_meta o))
            (watch_requests l (controller_of o) watched (dependent_meta o).ns name)
          ≡ true)
change-wakes_or_keeps_status sc w l r r' o watched name listed given change =
    elim (alike_or_hit r r' (dependent_meta o).ns watched name (WakesOn l o) change (lookups o)
      (lookup_changes-wake l o listed)) [
        | inl alike ↦ inl (reconcile_dependent-frame sc w r r' o alike)
        | inr hit ↦ inr (hit given)
      ]
