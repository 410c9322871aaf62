-- ===== src/Registry/Watch/Numbers.antt =====
-- A stream of versions that are numbers.
use agent_plane.Base.{
  ℕ, String, ◌<>◌, Bool, true, false, Option, none, some, List, [], ◌∷◌, ◌++◌, ◌≡◌, ◌<◌, ap, arith,
  is_some, All, All-map, Bool-cases, Option-cases, inl, inr,
}
use agent_plane.Registry.Version.{parse_uint, is_newer_rv}
use agent_plane.Registry.Version.Laws.{IsNewer, by_number, odd_version, odd_floor}
use agent_plane.Registry.Hub.{Frame, Hub, subscribe, receive}
use agent_plane.Registry.Hub.Frames.{
  HoldsOnly, HoldsOnly-subscribe, HoldsOnly-broadcast, HoldsOnly-receive,
}
use agent_plane.Registry.Watch.{
  Write, event, keepalive, failed, Event, ready, ticked, published, Stream, accept, watch_step,
  watch_loop, start_stream, handle_watch,
}
use agent_plane.Registry.Watch.Order.{value, number_of, IsAscending, handle_watch-IsAscending}

abbrev pub IsNumber : String → Type 0
IsNumber rv = is_some (parse_uint rv) ≡ true

-- Each number is less than all that follow it.
abbrev pub IsIncreasing : List ℕ → Type 0
IsIncreasing [] = Unit
IsIncreasing (n ∷ ns) = All (λ m. n < m) ns × IsIncreasing ns

newer_numbers :
    (rv floor : String) (m n : ℕ)
    → parse_uint rv ≡ some m
    → parse_uint floor ≡ some n
    → IsNewer rv floor
    → n < value rv
newer_numbers rv floor m n p q (by_number k f e g lt) = ground (arith, p, q, e, g, lt)
newer_numbers rv floor m n p q (odd_version e) = ground (arith, p, e)
newer_numbers rv floor m n p q (odd_floor e) = ground (arith, q, e)

module _ {ℓ} {C : Type ℓ} where
  abbrev pub HasNumber : Frame C → Type 0
  HasNumber f = IsNumber f.rv

  abbrev pub IsNumbered : Event C → Type 0
  IsNumbered ready = Unit
  IsNumbered ticked = Unit
  IsNumbered (published key rv cfg) = IsNumber rv

  abbrev pub StartsAtNumber : Option (C × String) → Type 0
  StartsAtNumber none = Unit
  StartsAtNumber (some (cfg, rv)) = IsNumber rv

  -- The versions of the configurations written.
  abbrev pub versions : List (Write C) → List ℕ
  versions [] = []
  versions (event f ∷ ws) = value f.rv ∷ versions ws
  versions (keepalive ∷ ws) = versions ws
  versions (failed status message ∷ ws) = versions ws

  abbrev WritesNumbers : List (Write C) → Type 0
  WritesNumbers [] = Unit
  WritesNumbers (event f ∷ ws) = IsNumber f.rv × WritesNumbers ws
  WritesNumbers (keepalive ∷ ws) = WritesNumbers ws
  WritesNumbers (failed status message ∷ ws) = WritesNumbers ws

  WritesNumbers-append :
      (ws vs : List (Write C)) → WritesNumbers ws → WritesNumbers vs → WritesNumbers (ws ++ vs)
  WritesNumbers-append [] vs h k = k
  WritesNumbers-append (event f ∷ ws) vs (n, h) k = (n, WritesNumbers-append ws vs h k)
  WritesNumbers-append (keepalive ∷ ws) vs h k = WritesNumbers-append ws vs h k
  WritesNumbers-append (failed s m ∷ ws) vs h k = WritesNumbers-append ws vs h k

  -- The hub's frames and the writes so far have numbers.
  abbrev IsNumeric : Stream C → Type 0
  IsNumeric w = HoldsOnly HasNumber w.hub.subs × WritesNumbers w.writes

  accept-WritesNumbers :
      (f : Frame C) (last : String) (ws : List (Write C))
      → IsNumber f.rv
      → WritesNumbers ws
      → WritesNumbers (accept f (last, ws)).1
  unfolding accept
  accept-WritesNumbers f last ws n h = elim (Bool-cases (is_newer_rv f.rv last)) [
    | inl t ↦ rw t (WritesNumbers-append ws _ h (n, tt))
    | inr t ↦ rw t h
  ]

  step-IsNumeric :
      (id : ℕ) (e : Event C) (w : Stream C)
      → IsNumbered e
      → IsNumeric w
      → IsNumeric (watch_step id e w)
  unfolding watch_step
  step-IsNumeric id ready w n (held, h) =
      let (got, left) = HoldsOnly-receive HasNumber w.hub id held in
      elim (Option-cases (receive w.hub id).0) [
        | inl e ↦ rw (watch_step, e) (held, h)
        | inr (f, e) ↦
            let number : IsNumber f.rv = rw e at got in
            rw (watch_step, e) (left, accept-WritesNumbers f w.last_rv w.writes number h)
      ]
  step-IsNumeric id ticked w n (held, h) = (held, WritesNumbers-append w.writes _ h tt)
  step-IsNumeric id (published key rv cfg) w n (held, h) =
      (HoldsOnly-broadcast HasNumber w.hub key rv cfg n held, h)

  loop-IsNumeric :
      (id : ℕ) (es : List (Event C)) (w : Stream C)
      → All IsNumbered es
      → IsNumeric w
      → IsNumeric (watch_loop id es w)
  unfolding watch_loop
  loop-IsNumeric id [] w n h = h
  loop-IsNumeric id (e ∷ es) w (n, ns) h =
      loop-IsNumeric id es (watch_step id e w) ns (step-IsNumeric id e w n h)

  start-IsNumeric :
      (h : Hub C) (snapshot : Option (C × String))
      → HoldsOnly HasNumber h.subs
      → StartsAtNumber snapshot
      → IsNumeric (start_stream h snapshot)
  unfolding start_stream
  start-IsNumeric h none held n = (held, tt)
  start-IsNumeric h (some (cfg, rv)) held n = (held, (n, tt))

  ascending_from :
      (last : String) (n : ℕ) (ws : List (Write C))
      → parse_uint last ≡ some n
      → IsAscending last ws
      → WritesNumbers ws
      → All (λ m. n < m) (versions ws) × IsIncreasing (versions ws)
  ascending_from last n [] e a h = (tt, tt)
  ascending_from last n (keepalive ∷ ws) e a h = ascending_from last n ws e a h
  ascending_from last n (failed s m ∷ ws) e a h = ascending_from last n ws e a h
  ascending_from last n (event f ∷ ws) e (newer, a) (k, h) = elim (Option-cases (parse_uint f.rv)) [
    | inl odd ↦ ground (arith, k, odd)
    | inr (m, p) ↦
        let here : value f.rv ≡ m = ap number_of p in
        let less : n < value f.rv = newer_numbers f.rv last m n p e newer in
        let (above, rest) = ascending_from f.rv m ws p a h in
        (
          (less, All-map (λ v lt. ground (arith, less, lt, here)) (versions ws) above),
          (All-map (λ v lt. ground (arith, lt, here)) (versions ws) above, rest),
        )
  ]

  first_ascending :
      (ws : List (Write C)) → IsAscending "" ws → WritesNumbers ws → IsIncreasing (versions ws)
  first_ascending [] a h = tt
  first_ascending (keepalive ∷ ws) a h = first_ascending ws a h
  first_ascending (failed s m ∷ ws) a h = first_ascending ws a h
  first_ascending (event f ∷ ws) (_, a) (k, h) = elim (Option-cases (parse_uint f.rv)) [
    | inl odd ↦ ground (arith, k, odd)
    | inr (m, p) ↦
        let here : value f.rv ≡ m = ap number_of p in
        let (above, rest) = ascending_from f.rv m ws p a h in
        (All-map (λ v lt. ground (arith, lt, here)) (versions ws) above, rest)
  ]

  -- Where the versions of the snapshot, of the frames in the hub and of those that are published during
  -- the request are decimal numbers of 64 bits, each configuration that the request writes has a greater
  -- version than all that it wrote before, whatever the order of the events.
  pub handle_watch-IsIncreasing :
      (h : Hub C) (ns name : String) (flusher : Bool) (snapshot : Option (C × String))
      (es : List (Event C))
      → HoldsOnly HasNumber h.subs
      → StartsAtNumber snapshot
      → All IsNumbered es
      → IsIncreasing (versions (handle_watch h ns name flusher snapshot es).writes)
  unfolding handle_watch
  handle_watch-IsIncreasing h ns name false snapshot es held n ns' = tt
  handle_watch-IsIncreasing h ns name true snapshot es held n ns' =
      let (subscribed, id) = subscribe h (ns <> "/" <> name) in
      let w = start_stream subscribed snapshot in
      first_ascending (watch_loop id es w).writes
        (handle_watch-IsAscending h ns name true snapshot es)
        (loop-IsNumeric id es w ns' (
          start-IsNumeric subscribed snapshot
            (HoldsOnly-subscribe HasNumber h (ns <> "/" <> name) held) n)).1
