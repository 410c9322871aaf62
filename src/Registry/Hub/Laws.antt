-- ===== src/Registry/Hub/Laws.antt =====
-- Every hub that the program reaches is safe.
use agent_plane.Registry.Hub.{Hub, new_hub}
use agent_plane.Registry.Hub.Reach.{
  IsSafe, Step, Reach, start, next, subscribes, leaves, broadcasts, receives,
}
use agent_plane.Registry.Hub.Closing.{subscribe-IsSafe, unsubscribe-IsSafe}
use agent_plane.Registry.Hub.Buffers.{broadcast-IsSafe, receive-IsSafe}

module _ {ℓ} {C : Type ℓ} where
  new_hub-IsSafe : IsSafe (new_hub {C = C})
  unfolding new_hub
  new_hub-IsSafe = record { live = tt; distinct = tt; past = tt }

  Step-IsSafe : {h k : Hub C} → Step h k → IsSafe h → IsSafe k
  Step-IsSafe (subscribes h key) v = subscribe-IsSafe h key v
  Step-IsSafe (leaves h key id p) v = unsubscribe-IsSafe h key id p v
  Step-IsSafe (broadcasts h key rv cfg) v = broadcast-IsSafe h key rv cfg v
  Step-IsSafe (receives h id) v = receive-IsSafe h id v

  -- In every hub that subscribing, unsubscribing a held subscriber, broadcasting and receiving lead to
  -- from the new hub, the channels of the held subscribers are open, so that no broadcast sends on a
  -- closed one; their buffers hold at most eight frames; and their identities differ.
  pub Reach-IsSafe : {h : Hub C} → Reach h → IsSafe h
  Reach-IsSafe start = new_hub-IsSafe
  Reach-IsSafe (next r s) = Step-IsSafe s (Reach-IsSafe r)
