-- ===== src/Reconcile/Peers/Laws.antt =====
-- What `peerViolations` reads of the calling Agent.
use agent_plane.Base.{List, [], ◌∷◌, ◌++◌, ◌≡◌, refl, ap, sort_strings}
use agent_plane.Api.{Agent, AgentStatus}
use agent_plane.Cluster.{Reader}
use agent_plane.Resolve.Pass.{PeerRef}
use agent_plane.Reconcile.Peers.{peer_violation, peers_violations, peer_violations}

module _ (r : Reader) (a : Agent) (st : AgentStatus) where
  peers_violations-status :
      (ps : List PeerRef)
      → peers_violations r (record a { status = st }) ps ≡ peers_violations r a ps
  unfolding peers_violations peer_violation
  peers_violations-status [] = refl
  peers_violations-status (p ∷ ps) =
      ap (λ rest. peer_violation r a p ++ rest) (peers_violations-status ps)

  -- The status of the calling Agent is not read.
  pub peer_violations-status :
      (ps : List PeerRef) → peer_violations r (record a { status = st }) ps ≡ peer_violations r a ps
  unfolding peer_violations
  peer_violations-status ps = ap sort_strings (peers_violations-status ps)
