-- ===== src/Reconcile/Peers.antt =====
-- `peerViolations`, `PeerEndpointFor` and `reconcilePeer` of internal/controller/agent_controller.go.
pub mod Laws
use agent_plane.Base.{
  ℕ, String, ◌<>◌, none, some, List, [], ◌∷◌, ◌++◌, ◌==◌, ◌==ℕ◌, if◌then◌else◌, is_some, quote,
  show_nat, sort_strings,
}
use agent_plane.Api.{Agent, AgentExposeSpec, AgentStatus}
use agent_plane.Cluster.{found, not_found, failed, Reader, Result, ok}
use agent_plane.Resolve.Pass.{PeerRef}
use agent_plane.Runtime.{agent_runtime_labels}
use agent_plane.Reconcile.Workloads.{OwnedObjects, after_write}

-- What one peer tool has against it; an error other than NotFound is left to the next pass.
pub peer_violation : Reader → Agent → PeerRef → List String
peer_violation r a p =
    if p.agent == a.meta.name
    then ("tool " <> quote p.tool <> " points at this Agent itself; an Agent cannot consult itself")
      ∷ []
    else elim (r.get_agent a.meta.ns p.agent) [
      | not_found ↦
          ("tool "
            <> quote p.tool
            <> " references Agent "
            <> quote p.agent
            <> ", which does not exist")
          ∷ []
      | failed e ↦ []
      | found target ↦
          if is_some target.spec.expose
          then []
          else ("tool "
              <> quote p.tool
              <> " references Agent "
              <> quote p.agent
              <> ", which does not set spec.expose and so answers no peers")
            ∷ []
    ]

pub peers_violations : Reader → Agent → List PeerRef → List String
peers_violations r a [] = []
peers_violations r a (p ∷ ps) = peer_violation r a p ++ peers_violations r a ps

unfoldable pub peer_violations : Reader → Agent → List PeerRef → List String
unfolding peers_violations peer_violation
peer_violations r a peers = sort_strings (peers_violations r a peers)

abbrev pub peer_port : AgentExposeSpec → ℕ
peer_port e = if e.port ==ℕ 0 then 8080 else e.port

unfoldable pub peer_endpoint_for : Agent → String
peer_endpoint_for a = elim a.spec.expose [
  | none ↦ ""
  | some e ↦ "http://" <> a.meta.name <> "-peer." <> a.meta.ns <> ".svc:" <> show_nat (peer_port e)
]

unfoldable pub reconcile_peer :
    OwnedObjects → Agent → AgentExposeSpec → AgentStatus → Result AgentStatus
reconcile_peer w a e st =
    after_write
      (w.write_service a.meta.ns (a.meta.name <> "-peer") (record {
        labels = agent_runtime_labels a;
        selector = agent_runtime_labels a;
        port_name = "mcp";
        port = peer_port e;
      }))
      (ok (record st { peer_endpoint = peer_endpoint_for a }))
