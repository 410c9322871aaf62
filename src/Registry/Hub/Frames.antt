-- ===== src/Registry/Hub/Frames.antt =====
-- What holds of every frame that the hub's channels hold goes on to hold.
use agent_plane.Base.{
  ℕ, String, Option, none, some, List, [], ◌∷◌, ◌==◌, ◌==ℕ◌, ltb, length, All, All-append,
  Bool-cases, inl, inr,
}
use agent_plane.Registry.Hub.{
  Frame, Subscriber, Hub, capacity, subscribe, broadcast, receive, offer, offer_all, oldest,
  without_oldest, receive_from,
}

module _ {ℓ} {C : Type ℓ} (P : Frame C → Type 0) where
  abbrev pub HoldsOnly : List (Subscriber C) → Type 0
  HoldsOnly ss = All (λ s. All P s.buffer) ss

  -- What a receive answers.
  abbrev pub IsGot : Option (Frame C) → Type 0
  IsGot none = Unit
  IsGot (some f) = P f

  pub HoldsOnly-subscribe :
      (h : Hub C) (key : String) → HoldsOnly h.subs → HoldsOnly (subscribe h key).0.subs
  unfolding subscribe
  HoldsOnly-subscribe h key held = All-append (λ s. All P s.buffer) h.subs _ held (tt, tt)

  offered : (f : Frame C) (s : Subscriber C) → P f → All P s.buffer → All P (offer f s).buffer
  unfolding offer
  offered f s p held = elim (Bool-cases (ltb (length s.buffer) capacity)) [
    | inl fits ↦ rw (offer, fits) (All-append P s.buffer _ held (p, tt))
    | inr full ↦ rw (offer, full) held
  ]

  HoldsOnly-offer_all :
      (key : String) (f : Frame C) (ss : List (Subscriber C))
      → P f
      → HoldsOnly ss
      → HoldsOnly (offer_all key f ss)
  unfolding offer_all
  HoldsOnly-offer_all key f [] p h = tt
  HoldsOnly-offer_all key f (s ∷ ss) p (h, hs) = elim (Bool-cases (s.key == key)) [
    | inl e ↦ rw (offer_all, e) (offered f s p h, HoldsOnly-offer_all key f ss p hs)
    | inr e ↦ rw (offer_all, e) (h, HoldsOnly-offer_all key f ss p hs)
  ]

  pub HoldsOnly-broadcast :
      (h : Hub C) (key rv : String) (cfg : C)
      → P (record { rv = rv; cfg = cfg })
      → HoldsOnly h.subs
      → HoldsOnly (broadcast h key rv cfg).subs
  unfolding broadcast
  HoldsOnly-broadcast h key rv cfg p held = HoldsOnly-offer_all key _ h.subs p held

  oldest_only : (fs : List (Frame C)) → All P fs → IsGot (oldest fs) × All P (without_oldest fs)
  unfolding oldest without_oldest
  oldest_only [] h = (tt, tt)
  oldest_only (f ∷ fs) (p, h) = (p, h)

  HoldsOnly-receive_from :
      (id : ℕ) (ss : List (Subscriber C))
      → HoldsOnly ss
      → IsGot (receive_from id ss).0 × HoldsOnly (receive_from id ss).1
  unfolding receive_from
  HoldsOnly-receive_from id [] h = (tt, tt)
  HoldsOnly-receive_from id (s ∷ ss) (h, hs) = elim (Bool-cases (s.id ==ℕ id)) [
    | inl e ↦ let (got, left) = oldest_only s.buffer h in rw (receive_from, e) (got, (left, hs))
    | inr e ↦
        let (got, left) = HoldsOnly-receive_from id ss hs in rw (receive_from, e) (got, (h, left))
  ]

  pub HoldsOnly-receive :
      (h : Hub C) (id : ℕ)
      → HoldsOnly h.subs
      → IsGot (receive h id).0 × HoldsOnly (receive h id).1.subs
  unfolding receive
  HoldsOnly-receive h id held = HoldsOnly-receive_from id h.subs held
