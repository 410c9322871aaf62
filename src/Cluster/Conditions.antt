-- ===== src/Cluster/Conditions.antt =====
-- `meta.SetStatusCondition`, a parameter with what is documented of it, and `setCondition` of
-- internal/controller/agent_controller.go.
use agent_plane.Base.{
  ℕ, String, Bool, Option, none, some, List, [], ◌∷◌, ◌==◌, ◌≡◌, if◌then◌else◌, arith, eq_iff,
  eq_refl, false, Bool-cases, inl, inr, ap,
}
use agent_plane.Api.{Condition}

-- The condition of a type, as `meta.FindStatusCondition` finds it.
abbrev pub find_condition : String → List Condition → Option Condition
find_condition type_of [] = none
find_condition type_of (c ∷ cs) = if c.type_of == type_of then some c else find_condition type_of cs

pub record StatusConditions : Type 0 where
  pub set_status_condition : List Condition → Condition → List Condition
  -- The condition is there afterwards, and those of other types are as they were.
  pub set_self :
      (cs : List Condition) (c : Condition)
      → find_condition c.type_of (set_status_condition cs c) ≡ some c
  pub set_other :
      (cs : List Condition) (c : Condition) (type_of : String)
      → (c.type_of == type_of) ≡ false
      → find_condition type_of (set_status_condition cs c) ≡ find_condition type_of cs
  -- A condition that is there as it is leaves the list as it is.
  pub set_same :
      (cs : List Condition) (c : Condition)
      → find_condition c.type_of cs ≡ some c
      → set_status_condition cs c ≡ cs

-- `setCondition`.
abbrev pub set_condition :
    StatusConditions → List Condition → String → Bool → String → String → ℕ → List Condition
set_condition sc conditions type_of status reason message generation =
    sc.set_status_condition conditions (record {
      type_of = type_of;
      status = status;
      reason = reason;
      message = message;
      observed_generation = generation;
    })

-- An update in place, or an addition at the end: the documented behaviour can be met.
pub upsert : List Condition → Condition → List Condition
upsert [] c = c ∷ []
upsert (d ∷ ds) c = if d.type_of == c.type_of then c ∷ ds else d ∷ upsert ds c

pub upsert_self :
    (cs : List Condition) (c : Condition) → find_condition c.type_of (upsert cs c) ≡ some c
unfolding upsert
upsert_self [] c = ground (arith, eq_refl c.type_of)
upsert_self (d ∷ ds) c = ground (arith, eq_refl c.type_of, upsert_self ds c)

pub upsert_other :
    (cs : List Condition) (c : Condition) (type_of : String)
    → (c.type_of == type_of) ≡ false
    → find_condition type_of (upsert cs c) ≡ find_condition type_of cs
unfolding upsert
upsert_other [] c t h = ground arith
upsert_other (d ∷ ds) c t h = ground (
  arith,
  upsert_other ds c t h,
  eq_iff d.type_of c.type_of,
  eq_iff d.type_of t,
  eq_iff c.type_of t,
)

pub upsert_same :
    (cs : List Condition) (c : Condition) → find_condition c.type_of cs ≡ some c → upsert cs c ≡ cs
unfolding upsert
upsert_same [] c h = ground (arith, h)
upsert_same (d ∷ ds) c h = elim (Bool-cases (d.type_of == c.type_of)) [
  | inl e ↦ ground (arith, h, e)
  | inr e ↦ rw (upsert, e) (ap (λ xs. d ∷ xs) (upsert_same ds c (ground (arith, h, e))))
]

unfoldable pub upserting : StatusConditions
unfolding upsert
upserting = record {
  set_status_condition = upsert;
  set_self = upsert_self;
  set_other = upsert_other;
  set_same = upsert_same;
}
