-- ===== src/Registry/Watch.antt =====
-- `handleWatch` and `writeSSE` of cmd/registry/main.go: the stream of configurations for one Agent.
pub mod Order
pub mod Numbers
pub mod Leaving
use agent_plane.Base.{
  ℕ, String, ◌<>◌, Bool, true, false, Option, none, some, List, [], ◌∷◌, ◌++◌, if◌then◌else◌,
}
use agent_plane.Registry.Version.{is_newer_rv}
use agent_plane.Registry.Hub.{Frame, Hub, subscribe, unsubscribe, broadcast, receive}

-- One write to the response; an event is written of a frame's configuration.
pub data Write {ℓ} (C : Type ℓ) : Type ℓ where
  event : Frame C → Write C
  keepalive : Write C
  failed : (status : ℕ) (message : String) → Write C

-- What the handler's `select` finds next, or what another goroutine does to the hub in between.
pub data Event {ℓ} (C : Type ℓ) : Type ℓ where
  ready : Event C
  ticked : Event C
  published : (key rv : String) (cfg : C) → Event C

-- The hub, `lastRV`, and the writes so far.
pub record Stream {ℓ} (C : Type ℓ) : Type ℓ where
  pub hub : Hub C
  pub last_rv : String
  pub writes : List (Write C)

module _ {ℓ} {C : Type ℓ} where
  -- A frame that has been received.
  unfoldable pub accept : Frame C → String × List (Write C) → String × List (Write C)
  accept f (last, ws) = if is_newer_rv f.rv last then (f.rv, ws ++ event f ∷ []) else (last, ws)

  -- A receive from an empty channel blocks, and changes nothing.
  unfoldable pub watch_step : ℕ → Event C → Stream C → Stream C
  watch_step id ready w =
      let (got, hub) = receive w.hub id in
      elim got [
        | none ↦ w
        | some f ↦
            let (last, ws) = accept f (w.last_rv, w.writes) in
            record { hub = hub; last_rv = last; writes = ws }
      ]
  watch_step id ticked w = record w { writes = w.writes ++ keepalive ∷ [] }
  watch_step id (published key rv cfg) w = record w { hub = broadcast w.hub key rv cfg }

  unfoldable pub watch_loop : ℕ → List (Event C) → Stream C → Stream C
  watch_loop id [] w = w
  watch_loop id (e ∷ es) w = watch_loop id es (watch_step id e w)

  -- The snapshot, where `buildConfig` gives one.
  unfoldable pub start_stream : Hub C → Option (C × String) → Stream C
  start_stream h none = record { hub = h; last_rv = ""; writes = [] }
  start_stream h (some (cfg, rv)) = record {
    hub = h;
    last_rv = rv;
    writes = event (record { rv = rv; cfg = cfg }) ∷ [];
  }

  -- The request from its start until the client cancels it, with the events up to then. The hub is the
  -- one that the handler leaves.
  unfoldable pub handle_watch :
      Hub C → String → String → Bool → Option (C × String) → List (Event C) → Stream C
  handle_watch h ns name flusher snapshot events =
      let key = ns <> "/" <> name in
      let (subscribed, id) = subscribe h key in
      let w = watch_loop id events (start_stream subscribed snapshot) in
      if flusher
      then record w { hub = unsubscribe w.hub key id }
      else record { hub = h; last_rv = ""; writes = failed 500 "streaming unsupported" ∷ [] }

  -- The text of the response's body. The argument stands for `json.Marshal`, whose error drops the
  -- event.
  unfoldable pub write_sse : (C → Option String) → C → String
  write_sse encode cfg = elim (encode cfg) [ none ↦ "" | some b ↦ "data: " <> b <> "\n\n" ]

  unfoldable pub body : (C → Option String) → List (Write C) → String
  body encode [] = ""
  body encode (event f ∷ ws) = write_sse encode f.cfg <> body encode ws
  body encode (keepalive ∷ ws) = ": keepalive\n\n" <> body encode ws
  body encode (failed status message ∷ ws) = message <> "\n" <> body encode ws
