-- ===== src/Registry/Hub/Closing.antt =====
-- `subscribe` and `unsubscribe` on the channels that are open and closed.
use mathlib.Core.Path.{subst}
use agent_plane.Base.{
  ℕ, String, ◌+◌, ◌<◌, true, false, ◌&&◌, List, [], ◌∷◌, ◌++◌, ◌==◌, ◌==ℕ◌, ◌≡◌, ◌≢◌, refl, arith,
  eq_iff, All, All-append, Bool-cases, inl, inr,
}
use agent_plane.Registry.Hub.{Subscriber, Hub, subscribe, delete, unsubscribe}
use agent_plane.Registry.Hub.Reach.{has_id, IsLive, IsFresh, HasDistinctIds, IsSafe, Holds}

past_next : (n : ℕ) (ms : List ℕ) → All (λ m. m < n) ms → All (λ m. m < n + 1) ms
past_next n [] h = tt
past_next n (m ∷ ms) (h, hs) = (omega arith, past_next n ms hs)

not_past : (n : ℕ) (ms : List ℕ) → All (λ m. m < n) ms → has_id n ms ≡ false
not_past n [] h = refl
not_past n (m ∷ ms) (h, hs) = ground (arith, not_past n ms hs)

module _ {ℓ} {C : Type ℓ} where
  IsLive-next :
      (closed : List ℕ) (n : ℕ) (ss : List (Subscriber C))
      → All (IsLive closed n) ss
      → All (IsLive closed (n + 1)) ss
  IsLive-next closed n [] h = tt
  IsLive-next closed n (s ∷ ss) (h, hs) = (
    record { open_channel = h.open_channel; made = omega (arith, h.made); bounded = h.bounded },
    IsLive-next closed n ss hs,
  )

  distinct-concat :
      (closed : List ℕ) (n : ℕ) (ss : List (Subscriber C)) (s : Subscriber C)
      → All (IsLive closed n) ss
      → s.id ≡ n
      → HasDistinctIds ss
      → HasDistinctIds (ss ++ s ∷ [])
  distinct-concat closed n [] s h e d = (tt, tt)
  distinct-concat closed n (x ∷ ss) s (h, hs) e (f, d) = (
    All-append (λ y. y.id ≢ x.id) ss (s ∷ []) f ((λ p. omega (arith, h.made)), tt),
    distinct-concat closed n ss s hs e d,
  )

  pub subscribe-IsSafe : (h : Hub C) (key : String) → IsSafe h → IsSafe (subscribe h key).0
  unfolding subscribe
  subscribe-IsSafe h key v = record {
    live =
        All-append (IsLive h.closed (h.next + 1)) h.subs _
          (IsLive-next h.closed h.next h.subs v.live)
          (
            record {
              open_channel = not_past h.next h.closed v.past;
              made = omega arith;
              bounded = omega arith;
            },
            tt,
          );
    distinct = distinct-concat h.closed h.next h.subs _ v.live refl v.distinct;
    past = past_next h.next h.closed v.past;
  }

  -- unsubscribe
  delete_fresh :
      (key : String) (id : ℕ) (n : ℕ) (ss : List (Subscriber C))
      → IsFresh n ss
      → IsFresh n (delete key id ss)
  unfolding delete
  delete_fresh key id n [] h = tt
  delete_fresh key id n (s ∷ ss) (h, hs) = elim (Bool-cases (s.key == key && s.id ==ℕ id)) [
    | inl e ↦ rw e (delete_fresh key id n ss hs)
    | inr e ↦ rw e (h, delete_fresh key id n ss hs)
  ]

  delete_distinct :
      (key : String) (id : ℕ) (ss : List (Subscriber C))
      → HasDistinctIds ss
      → HasDistinctIds (delete key id ss)
  unfolding delete
  delete_distinct key id [] h = tt
  delete_distinct key id (s ∷ ss) (h, hs) = elim (Bool-cases (s.key == key && s.id ==ℕ id)) [
    | inl e ↦ rw e (delete_distinct key id ss hs)
    | inr e ↦ rw e (delete_fresh key id s.id ss h, delete_distinct key id ss hs)
  ]

  -- Subscribers with another identity stay live when one is closed.
  IsLive-others :
      (closed : List ℕ) (n id : ℕ) (ss : List (Subscriber C))
      → All (IsLive closed n) ss
      → IsFresh id ss
      → All (IsLive (id ∷ closed) n) ss
  IsLive-others closed n id [] h f = tt
  IsLive-others closed n id (s ∷ ss) (h, hs) (f, fs) = (
    record { open_channel = ground (arith, h.open_channel); made = h.made; bounded = h.bounded },
    IsLive-others closed n id ss hs fs,
  )

  delete_keeps_fresh :
      (key : String) (id : ℕ) (ss : List (Subscriber C)) → IsFresh id ss → delete key id ss ≡ ss
  unfolding delete
  delete_keeps_fresh key id [] f = refl
  delete_keeps_fresh key id (s ∷ ss) (f, fs) = ground (arith, delete_keeps_fresh key id ss fs)

  -- The subscriber that is held is the only one with its identity, so deleting it leaves no other.
  Holds-not_fresh :
      (key : String) (id : ℕ) (ss : List (Subscriber C)) → Holds key id ss → IsFresh id ss → ⊥
  Holds-not_fresh key id [] h f = h
  Holds-not_fresh key id (s ∷ ss) (inl e) (f, fs) = f e.1
  Holds-not_fresh key id (s ∷ ss) (inr h) (f, fs) = Holds-not_fresh key id ss h fs

  IsLive-delete :
      (closed : List ℕ) (n : ℕ) (key : String) (id : ℕ) (ss : List (Subscriber C))
      → All (IsLive closed n) ss
      → HasDistinctIds ss
      → Holds key id ss
      → All (IsLive (id ∷ closed) n) (delete key id ss)
  unfolding delete
  IsLive-delete closed n key id [] h d p = absurd p
  IsLive-delete closed n key id (s ∷ ss) (h, hs) (f, d) (inl e) =
      let test : (s.key == key && s.id ==ℕ id) ≡ true =
        ground (arith, eq_iff s.key key, e.0, e.1) in
      let fresh : IsFresh id ss = subst (λ m. IsFresh m ss) e.1 f in
      rw (test, delete_keeps_fresh key id ss fresh) (IsLive-others closed n id ss hs fresh)
  IsLive-delete closed n key id (s ∷ ss) (h, hs) (f, d) (inr p) =
      let other : s.id ≢ id = λ e. Holds-not_fresh key id ss p (subst (λ m. IsFresh m ss) e f) in
      let test : (s.key == key && s.id ==ℕ id) ≡ false = ground arith in
      rw test (
        record {
          open_channel = ground (arith, h.open_channel);
          made = h.made;
          bounded = h.bounded;
        },
        IsLive-delete closed n key id ss hs d p,
      )

  Holds-made :
      (closed : List ℕ) (n : ℕ) (key : String) (id : ℕ) (ss : List (Subscriber C))
      → All (IsLive closed n) ss
      → Holds key id ss
      → id < n
  Holds-made closed n key id [] h p = absurd p
  Holds-made closed n key id (s ∷ ss) (h, hs) (inl e) = omega (arith, h.made, e.1)
  Holds-made closed n key id (s ∷ ss) (h, hs) (inr p) = Holds-made closed n key id ss hs p

  pub unsubscribe-IsSafe :
      (h : Hub C) (key : String) (id : ℕ)
      → Holds key id h.subs
      → IsSafe h
      → IsSafe (unsubscribe h key id)
  unfolding unsubscribe
  unsubscribe-IsSafe h key id p v = record {
    live = IsLive-delete h.closed h.next key id h.subs v.live v.distinct p;
    distinct = delete_distinct key id h.subs v.distinct;
    past = (Holds-made h.closed h.next key id h.subs v.live p, v.past);
  }
