-- ===== src/Resolve/Pass/Laws.antt =====
-- What a pass over the references finds and misses.
use agent_plane.Base.{
  String, Option, none, some, List, [], ◌∷◌, ◌++◌, ◌≡◌, refl, sym, ◌∙◌, ap, ◌⊎◌, inl, inr, arith,
  if◌then◌else◌, Bool-cases,
}
use mathlib.Core.List.{append_assoc, append-nil}
use agent_plane.Base.{or_else}
use agent_plane.Cluster.{Got, found, not_found, failed, Reader, ok, err}
use agent_plane.Resolve.Targets.{Object, get_object, Target}
use agent_plane.Resolve.Pass.{
  ResolvedRef, Resolution, collect, record_git, ref_of, missing_name, take_target, resolve_targets,
}

-- The entries of the targets that are there, in order.
abbrev pub found_refs : Reader → String → List Target → List ResolvedRef
found_refs r ns [] = []
found_refs r ns (t ∷ ts) =
    elim (get_object r ns t.kind t.name) [ found o ↦ ref_of t o ∷ [] | _ ↦ [] ]
    ++ found_refs r ns ts

-- "Kind/name" of the targets that are not there, in order.
abbrev pub missing_names : Reader → String → List Target → List String
missing_names r ns [] = []
missing_names r ns (t ∷ ts) =
    elim (get_object r ns t.kind t.name) [ not_found ↦ missing_name t ∷ [] | _ ↦ [] ]
    ++ missing_names r ns ts

abbrev pub first_failure_of : Got Object → Option String
first_failure_of (found o) = none
first_failure_of not_found = none
first_failure_of (failed e) = some e

-- The first error that is not NotFound.
abbrev pub first_failure : Reader → String → List Target → Option String
first_failure r ns [] = none
first_failure r ns (t ∷ ts) =
    or_else (first_failure_of (get_object r ns t.kind t.name)) (first_failure r ns ts)

collect_keeps :
    (res : Resolution) (o : Object)
    → ((collect res o).refs ≡ res.refs)
      × ((collect res o).missing ≡ res.missing)
      × ((collect res o).declared ≡ res.declared)
unfolding collect
collect_keeps res o = ground arith

record_git_keeps :
    (res : Resolution) (o : Object)
    → ((record_git res o).refs ≡ res.refs)
      × ((record_git res o).missing ≡ res.missing)
      × ((record_git res o).declared ≡ res.declared)
unfolding record_git
record_git_keeps res o = ground arith

-- What the loop adds to the entries and the missing names.
pub record Adds (res : Resolution) (refs : List ResolvedRef) (missing : List String)
    (res' : Resolution) : Type 0 where
  pub refs_added : res'.refs ≡ res.refs ++ refs
  pub missing_added : res'.missing ≡ res.missing ++ missing
  pub declared_kept : res'.declared ≡ res.declared

take_target-Adds :
    (res : Resolution) (t : Target) (got : Got Object) (res' : Resolution)
    → take_target res t got ≡ ok res'
    → Adds res
        (elim got [ found o ↦ ref_of t o ∷ [] | _ ↦ [] ])
        (elim got [ not_found ↦ missing_name t ∷ [] | _ ↦ [] ])
        res'
unfolding take_target
take_target-Adds res t (found o) res' h =
    let noted : Resolution = record res { refs = res.refs ++ ref_of t o ∷ [] } in
    let same : (if t.git then record_git noted o else collect noted o) ≡ res' = cc in
    rw (← same) (elim (Bool-cases t.git) [
      | inl e ↦ rw e (record {
        refs_added = (record_git_keeps noted o).0;
        missing_added = (record_git_keeps noted o).1 ∙ sym (append-nil res.missing);
        declared_kept = (record_git_keeps noted o).2;
      })
      | inr e ↦ rw e (record {
        refs_added = (collect_keeps noted o).0;
        missing_added = (collect_keeps noted o).1 ∙ sym (append-nil res.missing);
        declared_kept = (collect_keeps noted o).2;
      })
    ])
take_target-Adds res t not_found res' h =
    let same : record res { missing = res.missing ++ missing_name t ∷ [] } ≡ res' = cc in
    rw (← same) (record {
      refs_added = sym (append-nil res.refs);
      missing_added = refl;
      declared_kept = refl;
    })
take_target-Adds res t (failed e) res' h = cc

Adds-trans :
    (a b c : Resolution) {rs ss : List ResolvedRef} {ms ns : List String}
    → Adds a rs ms b
    → Adds b ss ns c
    → Adds a (rs ++ ss) (ms ++ ns) c
Adds-trans a b c {rs} {ss} {ms} {ns} h k = record {
  refs_added = k.refs_added ∙ ap (λ l. l ++ ss) h.refs_added ∙ append_assoc a.refs rs ss;
  missing_added =
      k.missing_added ∙ ap (λ l. l ++ ns) h.missing_added ∙ append_assoc a.missing ms ns;
  declared_kept = k.declared_kept ∙ h.declared_kept;
}

pub take_target-cases :
    (res : Resolution) (t : Target) (got : Got Object)
    → ((res' : Resolution) × (take_target res t got ≡ ok res') × (first_failure_of got ≡ none))
      ⊎ ((e : String) × (take_target res t got ≡ err e) × (first_failure_of got ≡ some e))
unfolding take_target
take_target-cases res t (found o) = inl (_, refl, refl)
take_target-cases res t not_found = inl (_, refl, refl)
take_target-cases res t (failed e) = inr (e, refl, refl)

module _ (r : Reader) (ns : String) where
  -- The loop either resolves every target or stops at the first error.
  pub resolve_targets-cases :
      (res : Resolution) (ts : List Target)
      → ((res' : Resolution) × (resolve_targets r ns res ts ≡ ok res')
          × (first_failure r ns ts ≡ none)
          × Adds res (found_refs r ns ts) (missing_names r ns ts) res')
        ⊎ ((e : String) × (resolve_targets r ns res ts ≡ err e) × (first_failure r ns ts ≡ some e))
  unfolding resolve_targets
  resolve_targets-cases res [] = inl (
    res,
    refl,
    refl,
    record {
      refs_added = sym (append-nil res.refs);
      missing_added = sym (append-nil res.missing);
      declared_kept = refl;
    },
  )
  resolve_targets-cases res (t ∷ ts) =
      let got = get_object r ns t.kind t.name in
      elim (take_target-cases res t got) [
        | inr (e, stops, fails) ↦ inr (e, (rw stops), (rw fails))
        | inl (mid, goes, fine) ↦ elim (resolve_targets-cases mid ts) [
          | inr (e, stops, fails) ↦ inr (e, (rw (goes, stops)), (rw (fine, fails)))
          | inl (res', ends, all_fine, adds) ↦ inl (
            res',
            (rw (goes, ends)),
            (rw (fine, all_fine)),
            Adds-trans res mid res' (take_target-Adds res t got mid goes) adds,
          )
        ]
      ]
