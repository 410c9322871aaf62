-- ===== src/Registry/Watch/Leaving.antt =====
-- What a request leaves in the hub.
use agent_plane.Base.{
  ℕ, String, ◌<>◌, true, Option, none, some, List, [], ◌∷◌, ◌≡◌, refl, Option-cases, inl, inr,
}
use agent_plane.Registry.Hub.{Subscriber, Hub, subscribe, offer_all, receive}
use agent_plane.Registry.Hub.Reach.{IsSafe}
use agent_plane.Registry.Hub.Guest.{
  HasGuest, subscribe-HasGuest, broadcast-HasGuest, receive-HasGuest, unsubscribe-guest,
}
use agent_plane.Registry.Watch.{
  Event, ready, ticked, published, Stream, watch_step, watch_loop, start_stream, handle_watch,
}

module _ {ℓ} {C : Type ℓ} where
  -- What the broadcasts of these events leave in the buffers of some subscribers.
  abbrev pub broadcasts_of : List (Event C) → List (Subscriber C) → List (Subscriber C)
  broadcasts_of [] ss = ss
  broadcasts_of (ready ∷ es) ss = broadcasts_of es ss
  broadcasts_of (ticked ∷ es) ss = broadcasts_of es ss
  broadcasts_of (published key rv cfg ∷ es) ss =
      broadcasts_of es (offer_all key (record { rv = rv; cfg = cfg }) ss)

  ready-HasGuest :
      (w : Stream C) (others : List (Subscriber C)) (key : String) (id : ℕ)
      → HasGuest w.hub others key id
      → HasGuest (watch_step id ready w).hub others key id
  unfolding watch_step
  ready-HasGuest w others key id g = elim (Option-cases (receive w.hub id).0) [
    | inl e ↦ rw (watch_step, e) g
    | inr (f, e) ↦ rw (watch_step, e) (receive-HasGuest w.hub others key id g)
  ]

  loop-HasGuest :
      (es : List (Event C)) (w : Stream C) (others : List (Subscriber C)) (key : String) (id : ℕ)
      → HasGuest w.hub others key id
      → HasGuest (watch_loop id es w).hub (broadcasts_of es others) key id
  unfolding watch_loop watch_step
  loop-HasGuest [] w others key id g = g
  loop-HasGuest (ready ∷ es) w others key id g =
      loop-HasGuest es (watch_step id ready w) others key id (ready-HasGuest w others key id g)
  loop-HasGuest (ticked ∷ es) w others key id g =
      loop-HasGuest es (watch_step id ticked w) others key id g
  loop-HasGuest (published to rv cfg ∷ es) w others key id g =
      loop-HasGuest es (watch_step id (published to rv cfg) w) _ key id
        (broadcast-HasGuest w.hub others key id to rv cfg g)

  start_hub : (h : Hub C) (snapshot : Option (C × String)) → (start_stream h snapshot).hub ≡ h
  unfolding start_stream
  start_hub h none = refl
  start_hub h (some (cfg, rv)) = refl

  -- A request to a server that can stream leaves in a safe hub exactly the subscribers that it found,
  -- each with what the broadcasts of the meantime put into its buffer: its own subscriber is gone, and
  -- no other is lost or has missed a frame because of it.
  pub handle_watch-subs :
      (h : Hub C) (ns name : String) (snapshot : Option (C × String)) (es : List (Event C))
      → IsSafe h
      → (handle_watch h ns name true snapshot es).hub.subs ≡ broadcasts_of es h.subs
  unfolding handle_watch
  handle_watch-subs h ns name snapshot es v =
      let key = ns <> "/" <> name in
      let id = (subscribe h key).1 in
      let subscribed : HasGuest (start_stream (subscribe h key).0 snapshot).hub h.subs key id =
        rw (start_hub (subscribe h key).0 snapshot) (subscribe-HasGuest h key v) in
      unsubscribe-guest _ (broadcasts_of es h.subs) key id
        (loop-HasGuest es (start_stream (subscribe h key).0 snapshot) h.subs key id subscribed)
