-- ===== src/Registry/Hub.antt =====
-- `hub` of cmd/registry/main.go: the subscribers of each key, with a channel of eight frames each. A
-- subscriber's pointer is a number, which `subscribe` takes from a counter.
pub mod Reach
mod Closing
mod Buffers
pub mod Laws
pub mod Delivery
pub mod Guest
pub mod Frames
use agent_plane.Base.{
  ℕ, String, ◌+◌, Bool, true, false, ◌&&◌, not, Option, none, some, List, [], ◌∷◌, ◌++◌, ◌==◌,
  ◌==ℕ◌, if◌then◌else◌, ltb, length,
}

-- A frame: the version of the Agent, and the configuration built from it.
pub record Frame {ℓ} (C : Type ℓ) : Type ℓ where
  pub rv : String
  pub cfg : C

-- A subscriber, the key under which `subs` holds it, and its channel's buffer, the oldest frame first.
pub record Subscriber {ℓ} (C : Type ℓ) : Type ℓ where
  pub id : ℕ
  pub key : String
  pub buffer : List (Frame C)

-- `subs` as the list of the subscribers that it holds, the identities of those whose channel is
-- closed, and the next identity.
pub record Hub {ℓ} (C : Type ℓ) : Type ℓ where
  pub subs : List (Subscriber C)
  pub closed : List ℕ
  pub next : ℕ

-- `make(chan frame, 8)`.
abbrev pub capacity : ℕ
capacity = 8

module _ {ℓ} {C : Type ℓ} where
  unfoldable pub new_hub : Hub C
  new_hub = record { subs = []; closed = []; next = 0 }

  unfoldable pub subscribe : Hub C → String → Hub C × ℕ
  subscribe h key = (
    record {
      subs = h.subs ++ record { id = h.next; key = key; buffer = [] } ∷ [];
      closed = h.closed;
      next = h.next + 1;
    },
    h.next,
  )

  -- `delete(set, sub)`; a set that becomes empty holds no subscriber, as no set does.
  delete : String → ℕ → List (Subscriber C) → List (Subscriber C)
  delete key id [] = []
  delete key id (s ∷ ss) =
      let rest = delete key id ss in if s.key == key && s.id ==ℕ id then rest else s ∷ rest

  unfoldable pub unsubscribe : Hub C → String → ℕ → Hub C
  unfolding delete
  unsubscribe h key id = record {
    subs = delete key id h.subs;
    closed = id ∷ h.closed;
    next = h.next;
  }

  pub count_key : String → List (Subscriber C) → ℕ
  count_key key [] = 0
  count_key key (s ∷ ss) = let rest = count_key key ss in if s.key == key then rest + 1 else rest

  unfoldable pub subscriber_count : Hub C → String → ℕ
  unfolding count_key
  subscriber_count h key = count_key key h.subs

  -- `select { case sub.ch <- f: default: }`
  offer : Frame C → Subscriber C → Subscriber C
  offer f s = if ltb (length s.buffer) capacity then record s { buffer = s.buffer ++ f ∷ [] } else s

  pub offer_all : String → Frame C → List (Subscriber C) → List (Subscriber C)
  unfolding offer
  offer_all key f [] = []
  offer_all key f (s ∷ ss) = (if s.key == key then offer f s else s) ∷ offer_all key f ss

  unfoldable pub broadcast : Hub C → String → String → C → Hub C
  unfolding offer_all
  broadcast h key rv cfg = record h { subs = offer_all key (record { rv = rv; cfg = cfg }) h.subs }

  -- `f := <-sub.ch`: the oldest frame of the buffer, where there is one, and what is left of it.
  oldest : List (Frame C) → Option (Frame C)
  oldest [] = none
  oldest (f ∷ fs) = some f

  without_oldest : List (Frame C) → List (Frame C)
  without_oldest [] = []
  without_oldest (f ∷ fs) = fs

  -- The frame that the subscriber receives, and the subscribers after that.
  pub receive_from : ℕ → List (Subscriber C) → Option (Frame C) × List (Subscriber C)
  unfolding oldest without_oldest
  receive_from id [] = (none, [])
  receive_from id (s ∷ ss) =
      let rest = receive_from id ss in
      if s.id ==ℕ id
      then (oldest s.buffer, record s { buffer = without_oldest s.buffer } ∷ ss)
      else (rest.0, s ∷ rest.1)

  unfoldable pub receive : Hub C → ℕ → Option (Frame C) × Hub C
  unfolding receive_from
  receive h id = let rest = receive_from id h.subs in (rest.0, record h { subs = rest.1 })
