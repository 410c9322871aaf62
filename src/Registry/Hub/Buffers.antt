-- ===== src/Registry/Hub/Buffers.antt =====
-- `broadcast` and a receive change only buffers.
use agent_plane.Base.{
  ℕ, String, ◌≤◌, List, [], ◌∷◌, ◌==◌, ◌==ℕ◌, ◌≡◌, arith, if◌then◌else◌, length, length-append, All,
  Bool-cases, inl, inr,
}
use agent_plane.Registry.Hub.{
  Frame, Subscriber, Hub, offer, offer_all, broadcast, without_oldest, receive_from, receive,
}
use agent_plane.Registry.Hub.Reach.{IsLive, IsFresh, HasDistinctIds, IsSafe}

module _ {ℓ} {C : Type ℓ} where
  -- broadcast and receive keep every identity, and change only buffers
  offer_fresh :
      (key : String) (f : Frame C) (n : ℕ) (ss : List (Subscriber C))
      → IsFresh n ss
      → IsFresh n (offer_all key f ss)
  unfolding offer_all offer
  offer_fresh key f n [] h = tt
  offer_fresh key f n (s ∷ ss) (h, hs) = (ground arith, offer_fresh key f n ss hs)

  offer_distinct :
      (key : String) (f : Frame C) (ss : List (Subscriber C))
      → HasDistinctIds ss
      → HasDistinctIds (offer_all key f ss)
  unfolding offer_all offer
  offer_distinct key f [] h = tt
  offer_distinct key f (s ∷ ss) (h, hs) =
      let same : (if s.key == key then offer f s else s).id ≡ s.id = ground arith in
      (rw same (offer_fresh key f s.id ss h), offer_distinct key f ss hs)

  offer-IsLive :
      (closed : List ℕ) (n : ℕ) (key : String) (f : Frame C) (ss : List (Subscriber C))
      → All (IsLive closed n) ss
      → All (IsLive closed n) (offer_all key f ss)
  unfolding offer_all offer
  offer-IsLive closed n key f [] h = tt
  offer-IsLive closed n key f (s ∷ ss) (h, hs) = (
    ground (arith, h.open_channel, h.made, h.bounded, length-append s.buffer (f ∷ [])),
    offer-IsLive closed n key f ss hs,
  )

  pub broadcast-IsSafe :
      (h : Hub C) (key rv : String) (cfg : C) → IsSafe h → IsSafe (broadcast h key rv cfg)
  unfolding broadcast
  broadcast-IsSafe h key rv cfg v = record {
    live = offer-IsLive h.closed h.next key _ h.subs v.live;
    distinct = offer_distinct key _ h.subs v.distinct;
    past = v.past;
  }

  length-without_oldest : (fs : List (Frame C)) → length (without_oldest fs) ≤ length fs
  unfolding without_oldest
  length-without_oldest [] = omega arith
  length-without_oldest (f ∷ fs) = omega arith

  receive_fresh :
      (id n : ℕ) (ss : List (Subscriber C)) → IsFresh n ss → IsFresh n (receive_from id ss).1
  unfolding receive_from
  receive_fresh id n [] h = tt
  receive_fresh id n (s ∷ ss) (h, hs) = elim (Bool-cases (s.id ==ℕ id)) [
    | inl e ↦ rw e (h, hs)
    | inr e ↦ rw e (h, receive_fresh id n ss hs)
  ]

  receive_distinct :
      (id : ℕ) (ss : List (Subscriber C))
      → HasDistinctIds ss
      → HasDistinctIds (receive_from id ss).1
  unfolding receive_from
  receive_distinct id [] h = tt
  receive_distinct id (s ∷ ss) (h, hs) = elim (Bool-cases (s.id ==ℕ id)) [
    | inl e ↦ rw e (h, hs)
    | inr e ↦ rw e (receive_fresh id s.id ss h, receive_distinct id ss hs)
  ]

  receive-IsLive :
      (closed : List ℕ) (n id : ℕ) (ss : List (Subscriber C))
      → All (IsLive closed n) ss
      → All (IsLive closed n) (receive_from id ss).1
  unfolding receive_from
  receive-IsLive closed n id [] h = tt
  receive-IsLive closed n id (s ∷ ss) (h, hs) = elim (Bool-cases (s.id ==ℕ id)) [
    | inl e ↦ rw e (
      record {
        open_channel = h.open_channel;
        made = h.made;
        bounded = omega (arith, h.bounded, length-without_oldest s.buffer);
      },
      hs,
    )
    | inr e ↦ rw e (h, receive-IsLive closed n id ss hs)
  ]

  pub receive-IsSafe : (h : Hub C) (id : ℕ) → IsSafe h → IsSafe (receive h id).1
  unfolding receive
  receive-IsSafe h id v = record {
    live = receive-IsLive h.closed h.next id h.subs v.live;
    distinct = receive_distinct id h.subs v.distinct;
    past = v.past;
  }
