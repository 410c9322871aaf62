-- ===== src/Registry/Hub/Reach.antt =====
-- The steps that the handlers and the informer take on the hub, and what keeps it safe: the channel of
-- a subscriber that it holds is open.
use agent_plane.Base.{
  ℕ, String, ◌≤◌, ◌<◌, Bool, false, List, [], ◌∷◌, ◌==ℕ◌, ◌||◌, ◌⊎◌, ◌≡◌, ◌≢◌, length, All,
}
use agent_plane.Registry.Hub.{
  Subscriber, Hub, capacity, new_hub, subscribe, unsubscribe, broadcast, receive,
}

abbrev pub has_id : ℕ → List ℕ → Bool
has_id n [] = false
has_id n (m ∷ ms) = m ==ℕ n || has_id n ms

module _ {ℓ} {C : Type ℓ} where
  -- A subscriber that the hub holds: its channel is open, it has been made, and it is not too full.
  pub record IsLive (closed : List ℕ) (next : ℕ) (s : Subscriber C) : Type 0 where
    pub open_channel : has_id s.id closed ≡ false
    pub made : s.id < next
    pub bounded : length s.buffer ≤ capacity

  -- No later subscriber of the list has this identity.
  abbrev pub IsFresh : ℕ → List (Subscriber C) → Type 0
  IsFresh n ss = All (λ s. s.id ≢ n) ss

  abbrev pub HasDistinctIds : List (Subscriber C) → Type 0
  HasDistinctIds [] = Unit
  HasDistinctIds (s ∷ ss) = IsFresh s.id ss × HasDistinctIds ss

  pub record IsSafe (h : Hub C) : Type 0 where
    pub live : All (IsLive h.closed h.next) h.subs
    pub distinct : HasDistinctIds h.subs
    pub past : All (λ n. n < h.next) h.closed

  -- The list holds a subscriber with this key and identity.
  abbrev pub Holds : String → ℕ → List (Subscriber C) → Type 0
  Holds key id [] = ⊥
  Holds key id (s ∷ ss) = ((s.key ≡ key) × (s.id ≡ id)) ⊎ Holds key id ss

  -- What the handlers and the informer do to the hub. A handler unsubscribes the subscriber that it
  -- got, under the same key, while the hub holds it.
  pub data Step : Hub C → Hub C → Type ℓ where
    subscribes : (h : Hub C) (key : String) → Step h (subscribe h key).0
    leaves :
        (h : Hub C) (key : String) (id : ℕ) → Holds key id h.subs → Step h (unsubscribe h key id)
    broadcasts : (h : Hub C) (key rv : String) (cfg : C) → Step h (broadcast h key rv cfg)
    receives : (h : Hub C) (id : ℕ) → Step h (receive h id).1

  pub data Reach : Hub C → Type ℓ where
    start : Reach new_hub
    next : {h k : Hub C} → Reach h → Step h k → Reach k
