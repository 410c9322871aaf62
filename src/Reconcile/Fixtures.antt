-- ===== src/Reconcile/Fixtures.antt =====
-- What a pass of the examples works against.
use agent_plane.Base.{none}
use agent_plane.Cluster.{Reader, not_found, upserting}
use agent_plane.Reconcile.Workloads.{OwnedObjects}
use agent_plane.Reconcile.Pass.{Env}

-- Nothing is there yet, and every write succeeds.
abbrev pub idle : OwnedObjects
idle = record {
  get_claim = λ ns name. not_found;
  create_claim = λ c. none;
  write_deployment = λ ns name f. none;
  write_service = λ ns name s. none;
  get_deployment = λ ns name. not_found;
}

abbrev pub env_over : Reader → Env
env_over reader = record {
  conditions = upserting;
  parse_quantity = λ q. none;
  sha256 = λ text. "digest";
  registry_url = "";
  reader = reader;
  workloads = idle;
}
