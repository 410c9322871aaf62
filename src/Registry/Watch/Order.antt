-- ===== src/Registry/Watch/Order.antt =====
-- The versions of the configurations that a stream writes.
use agent_plane.Base.{
  ℕ, String, Bool, true, false, Option, none, some, List, [], ◌∷◌, ◌++◌, ◌≡◌, refl, ◌∙◌, ap, arith,
  if◌then◌else◌, ltb, is_some, All, Bool-cases, Option-cases, inl, inr,
}
use agent_plane.Registry.Version.{parse_uint, is_newer_rv}
use agent_plane.Registry.Version.Laws.{IsNewer, odd_floor, is_newer_rv_lem, is_newer_rv_iff}
use agent_plane.Registry.Hub.{Frame, Hub, receive}
use agent_plane.Registry.Watch.{
  Write, event, keepalive, failed, Event, ready, ticked, published, Stream, accept, watch_step,
  watch_loop, start_stream, handle_watch,
}

abbrev pub number_of : Option ℕ → ℕ
number_of none = 0
number_of (some n) = n

abbrev pub value : String → ℕ
value rv = number_of (parse_uint rv)

module _ {ℓ} {C : Type ℓ} where
  -- Each configuration is newer than the one before it, the first than this version.
  abbrev pub IsAscending : String → List (Write C) → Type 0
  IsAscending last [] = Unit
  IsAscending last (event f ∷ ws) = IsNewer f.rv last × IsAscending f.rv ws
  IsAscending last (keepalive ∷ ws) = IsAscending last ws
  IsAscending last (failed status message ∷ ws) = IsAscending last ws

  -- The version of the last configuration written.
  abbrev pub last_version : String → List (Write C) → String
  last_version last [] = last
  last_version last (event f ∷ ws) = last_version f.rv ws
  last_version last (keepalive ∷ ws) = last_version last ws
  last_version last (failed status message ∷ ws) = last_version last ws

  IsAscending-event :
      (last : String) (ws : List (Write C)) (f : Frame C)
      → IsAscending last ws
      → IsNewer f.rv (last_version last ws)
      → IsAscending last (ws ++ event f ∷ [])
  IsAscending-event last [] f h n = (n, tt)
  IsAscending-event last (event g ∷ ws) f (h, hs) n = (h, IsAscending-event g.rv ws f hs n)
  IsAscending-event last (keepalive ∷ ws) f h n = IsAscending-event last ws f h n
  IsAscending-event last (failed s m ∷ ws) f h n = IsAscending-event last ws f h n

  last_version-event :
      (last : String) (ws : List (Write C)) (f : Frame C)
      → last_version last (ws ++ event f ∷ []) ≡ f.rv
  last_version-event last [] f = refl
  last_version-event last (event g ∷ ws) f = last_version-event g.rv ws f
  last_version-event last (keepalive ∷ ws) f = last_version-event last ws f
  last_version-event last (failed s m ∷ ws) f = last_version-event last ws f

  IsAscending-keepalive :
      (last : String) (ws : List (Write C))
      → IsAscending last ws
      → IsAscending last (ws ++ keepalive ∷ [])
        × (last_version last (ws ++ keepalive ∷ []) ≡ last_version last ws)
  IsAscending-keepalive last [] h = (tt, refl)
  IsAscending-keepalive last (event g ∷ ws) (h, hs) =
      let (a, e) = IsAscending-keepalive g.rv ws hs in ((h, a), e)
  IsAscending-keepalive last (keepalive ∷ ws) h = IsAscending-keepalive last ws h
  IsAscending-keepalive last (failed s m ∷ ws) h = IsAscending-keepalive last ws h

  -- The writes of a stream ascend, and `lastRV` is the version of the last of them.
  abbrev IsOrdered : String → List (Write C) → Type 0
  IsOrdered last ws = IsAscending "" ws × (last_version "" ws ≡ last)

  accept-IsOrdered :
      (f : Frame C) (last : String) (ws : List (Write C))
      → IsOrdered last ws
      → IsOrdered (accept f (last, ws)).0 (accept f (last, ws)).1
  unfolding accept
  accept-IsOrdered f last ws (a, e) = elim (Bool-cases (is_newer_rv f.rv last)) [
    | inl t ↦
        let newer_than : IsNewer f.rv (last_version "" ws) =
          (is_newer_rv_iff f.rv (last_version "" ws)).0 (ap (is_newer_rv f.rv) e ∙ t) in
        rw t (IsAscending-event "" ws f a newer_than, last_version-event "" ws f)
    | inr t ↦ rw t (a, e)
  ]

  step-IsOrdered :
      (id : ℕ) (e : Event C) (w : Stream C)
      → IsOrdered w.last_rv w.writes
      → IsOrdered (watch_step id e w).last_rv (watch_step id e w).writes
  unfolding watch_step
  step-IsOrdered id ready w h = elim (Option-cases (receive w.hub id).0) [
    | inl e ↦ rw (watch_step, e) h
    | inr (f, e) ↦ rw (watch_step, e) (accept-IsOrdered f w.last_rv w.writes h)
  ]
  step-IsOrdered id ticked w (a, e) = let (b, k) = IsAscending-keepalive "" w.writes a in (b, k ∙ e)
  step-IsOrdered id (published key rv cfg) w h = h

  loop-IsOrdered :
      (id : ℕ) (es : List (Event C)) (w : Stream C)
      → IsOrdered w.last_rv w.writes
      → IsOrdered (watch_loop id es w).last_rv (watch_loop id es w).writes
  unfolding watch_loop
  loop-IsOrdered id [] w h = h
  loop-IsOrdered id (e ∷ es) w h =
      loop-IsOrdered id es (watch_step id e w) (step-IsOrdered id e w h)

  start-IsOrdered :
      (h : Hub C) (snapshot : Option (C × String))
      → IsOrdered (start_stream h snapshot).last_rv (start_stream h snapshot).writes
  unfolding start_stream parse_uint
  start-IsOrdered h none = (tt, refl)
  start-IsOrdered h (some (cfg, rv)) = ((odd_floor refl, tt), refl)

  pub handle_watch-IsAscending :
      (h : Hub C) (ns name : String) (flusher : Bool) (snapshot : Option (C × String))
      (es : List (Event C))
      → IsAscending "" (handle_watch h ns name flusher snapshot es).writes
  unfolding handle_watch
  handle_watch-IsAscending h ns name false snapshot es = tt
  handle_watch-IsAscending h ns name true snapshot es =
      (loop-IsOrdered _ es _ (start-IsOrdered _ snapshot)).0

  -- The frames that a subscriber receives, one after the other.
  abbrev pub accept_each : List (Frame C) → String × List (Write C) → String × List (Write C)
  accept_each [] p = p
  accept_each (f ∷ fs) p = accept_each fs (accept f p)

  abbrev pub highest : ℕ → List (Frame C) → ℕ
  highest n [] = n
  highest n (f ∷ fs) = highest (if ltb n (value f.rv) then value f.rv else n) fs

  accept-value :
      (f : Frame C) (last : String) (ws : List (Write C)) (n : ℕ)
      → parse_uint last ≡ some n
      → is_some (parse_uint f.rv) ≡ true
      → parse_uint (accept f (last, ws)).0 ≡ some (if ltb n (value f.rv) then value f.rv else n)
  unfolding accept
  accept-value f last ws n e s = elim (Option-cases (parse_uint f.rv)) [
    | inl k ↦ ground (arith, k, s)
    | inr (m, k) ↦ ground (arith, e, k, is_newer_rv_lem f.rv last)
  ]

  accept_each-value :
      (fs : List (Frame C)) (last : String) (ws : List (Write C)) (n : ℕ)
      → parse_uint last ≡ some n
      → All (λ f. is_some (parse_uint f.rv) ≡ true) fs
      → parse_uint (accept_each fs (last, ws)).0 ≡ some (highest n fs)
  accept_each-value [] last ws n e h = e
  accept_each-value (f ∷ fs) last ws n e (h, hs) =
      accept_each-value fs (accept f (last, ws)).0 (accept f (last, ws)).1 _
        (accept-value f last ws n e h) hs

  accept-last_version :
      (f : Frame C) (last : String) (ws : List (Write C))
      → last_version "" ws ≡ last
      → last_version "" (accept f (last, ws)).1 ≡ (accept f (last, ws)).0
  unfolding accept
  accept-last_version f last ws e = elim (Bool-cases (is_newer_rv f.rv last)) [
    | inl t ↦ rw t (last_version-event "" ws f)
    | inr t ↦ rw t e
  ]

  accept_each-last_version :
      (fs : List (Frame C)) (last : String) (ws : List (Write C))
      → last_version "" ws ≡ last
      → last_version "" (accept_each fs (last, ws)).1 ≡ (accept_each fs (last, ws)).0
  accept_each-last_version [] last ws e = e
  accept_each-last_version (f ∷ fs) last ws e =
      accept_each-last_version fs (accept f (last, ws)).0 (accept f (last, ws)).1
        (accept-last_version f last ws e)

  -- Where the last configuration that a stream has written has the version in lastRV, a number, and the
  -- frames that it then receives, in any order, have numbers for versions too: the last configuration
  -- that it has written afterwards has the highest of all these versions.
  pub accept_each-highest :
      (fs : List (Frame C)) (last : String) (ws : List (Write C)) (n : ℕ)
      → last_version "" ws ≡ last
      → parse_uint last ≡ some n
      → All (λ f. is_some (parse_uint f.rv) ≡ true) fs
      → parse_uint (last_version "" (accept_each fs (last, ws)).1) ≡ some (highest n fs)
  accept_each-highest fs last ws n written e h =
      ap parse_uint (accept_each-last_version fs last ws written)
      ∙ accept_each-value fs last ws n e h
