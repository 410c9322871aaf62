-- ===== src/Registry/Hub/Guest.antt =====
-- The last subscriber that came, through the broadcasts and receives until it leaves.
use agent_plane.Base.{
  ℕ, String, true, false, List, [], ◌∷◌, ◌++◌, ◌==◌, ◌==ℕ◌, ◌≡◌, refl, sym, ◌∙◌, ap, arith, eq_refl,
  if◌then◌else◌, All,
}
use agent_plane.Registry.Hub.{
  Frame, Subscriber, Hub, subscribe, delete, unsubscribe, offer, offer_all, broadcast,
  without_oldest, receive_from, receive,
}
use agent_plane.Registry.Hub.Reach.{IsLive, IsFresh, IsSafe}

module _ {ℓ} {C : Type ℓ} where
  -- The hub holds these others and, after them, a subscriber of this key and identity, which none of
  -- the others has.
  pub record HasGuest (h : Hub C) (others : List (Subscriber C)) (key : String) (id : ℕ)
      : Type ℓ where
    pub guest : Subscriber C
    pub held : h.subs ≡ others ++ guest ∷ []
    pub same_key : guest.key ≡ key
    pub same_id : guest.id ≡ id
    pub fresh : IsFresh id others

  made_fresh :
      (closed : List ℕ) (n : ℕ) (ss : List (Subscriber C)) → All (IsLive closed n) ss → IsFresh n ss
  made_fresh closed n [] h = tt
  made_fresh closed n (s ∷ ss) (h, hs) =
      ((λ e. omega (arith, h.made, e)), made_fresh closed n ss hs)

  pub subscribe-HasGuest :
      (h : Hub C) (key : String)
      → IsSafe h
      → HasGuest (subscribe h key).0 h.subs key (subscribe h key).1
  unfolding subscribe
  subscribe-HasGuest h key v = record {
    guest = record { id = h.next; key = key; buffer = [] };
    held = refl;
    same_key = refl;
    same_id = refl;
    fresh = made_fresh h.closed h.next h.subs v.live;
  }

  offer_all-concat :
      (key : String) (f : Frame C) (ss : List (Subscriber C)) (s : Subscriber C)
      → offer_all key f (ss ++ s ∷ [])
        ≡ offer_all key f ss ++ (if s.key == key then offer f s else s) ∷ []
  unfolding offer_all
  offer_all-concat key f [] s = refl
  offer_all-concat key f (x ∷ ss) s = rw (offer_all-concat key f ss s) refl

  offer_keeps :
      (key : String) (f : Frame C) (s : Subscriber C)
      → ((if s.key == key then offer f s else s).key ≡ s.key)
        × ((if s.key == key then offer f s else s).id ≡ s.id)
  unfolding offer
  offer_keeps key f s = (ground arith, ground arith)

  offer_all-IsFresh :
      (key : String) (f : Frame C) (n : ℕ) (ss : List (Subscriber C))
      → IsFresh n ss
      → IsFresh n (offer_all key f ss)
  unfolding offer_all
  offer_all-IsFresh key f n [] h = tt
  offer_all-IsFresh key f n (s ∷ ss) (h, hs) =
      ((λ e. h (sym (offer_keeps key f s).1 ∙ e)), offer_all-IsFresh key f n ss hs)

  pub broadcast-HasGuest :
      (h : Hub C) (others : List (Subscriber C)) (key : String) (id : ℕ) (to rv : String) (cfg : C)
      → HasGuest h others key id
      → HasGuest
          (broadcast h to rv cfg)
          (offer_all to (record { rv = rv; cfg = cfg }) others)
          key
          id
  unfolding broadcast
  broadcast-HasGuest h others key id to rv cfg g =
      let f : Frame C = record { rv = rv; cfg = cfg } in
      let keeps = offer_keeps to f g.guest in
      record {
        guest = if g.guest.key == to then offer f g.guest else g.guest;
        held = ap (offer_all to f) g.held ∙ offer_all-concat to f others g.guest;
        same_key = keeps.0 ∙ g.same_key;
        same_id = keeps.1 ∙ g.same_id;
        fresh = offer_all-IsFresh to f id others g.fresh;
      }

  -- A receive passes the subscribers with other identities.
  receive_from-append :
      (id : ℕ) (others ss : List (Subscriber C))
      → IsFresh id others
      → receive_from id (others ++ ss) ≡ ((receive_from id ss).0, others ++ (receive_from id ss).1)
  unfolding receive_from
  receive_from-append id [] ss h = refl
  receive_from-append id (s ∷ others) ss (h, hs) =
      let test : (s.id ==ℕ id) ≡ false = ground arith in
      rw (test, receive_from-append id others ss hs) refl

  receive_from-one :
      (id : ℕ) (s : Subscriber C)
      → s.id ≡ id
      → (s' : Subscriber C) × ((receive_from id (s ∷ [])).1 ≡ s' ∷ [])
        × (s'.key ≡ s.key)
        × (s'.id ≡ s.id)
  unfolding receive_from
  receive_from-one id s e =
      let test : (s.id ==ℕ id) ≡ true = ground arith in
      (record s { buffer = without_oldest s.buffer }, rw test refl, refl, refl)

  pub receive-HasGuest :
      (h : Hub C) (others : List (Subscriber C)) (key : String) (id : ℕ)
      → HasGuest h others key id
      → HasGuest (receive h id).1 others key id
  unfolding receive
  receive-HasGuest h others key id g =
      let (s', one, same_key, same_id) = receive_from-one id g.guest g.same_id in
      record {
        guest = s';
        held =
            ap (λ ss. (receive_from id ss).1) g.held
            ∙ ap (λ p. p.1) (receive_from-append id others (g.guest ∷ []) g.fresh)
            ∙ ap (λ ss. others ++ ss) one;
        same_key = same_key ∙ g.same_key;
        same_id = same_id ∙ g.same_id;
        fresh = g.fresh;
      }

  delete-append :
      (key : String) (id : ℕ) (others : List (Subscriber C)) (s : Subscriber C)
      → IsFresh id others
      → s.key ≡ key
      → s.id ≡ id
      → delete key id (others ++ s ∷ []) ≡ others
  unfolding delete
  delete-append key id [] s h e i = ground (arith, eq_refl key, e, i)
  delete-append key id (x ∷ others) s (h, hs) e i =
      ground (arith, delete-append key id others s hs e i)

  pub unsubscribe-guest :
      (h : Hub C) (others : List (Subscriber C)) (key : String) (id : ℕ)
      → HasGuest h others key id
      → (unsubscribe h key id).subs ≡ others
  unfolding unsubscribe
  unsubscribe-guest h others key id g =
      ap (delete key id) g.held ∙ delete-append key id others g.guest g.fresh g.same_key g.same_id
