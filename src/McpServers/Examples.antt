-- ===== src/McpServers/Examples.antt =====
-- Passes over an MCPServer with an image, and over one that became external.
use agent_plane.Base.{String, true, none, some, [], ◌∷◌, ◌≡◌, refl, All, show_nat, digit}
use agent_plane.Api.{McpServer, McpServerStatus}
use agent_plane.Cluster.{found, upserting}
use agent_plane.Runtime.Pod.{Deployment}
use agent_plane.Reconcile.Workloads.{Service}
use agent_plane.McpServers.{
  ManagedObjects, delete_deployment, write_deployment, write_service, deleted, delete_managed,
  reconcile_mcp_server,
}
use agent_plane.McpServers.Laws.{IsOwn, reconcile_mcp_server-IsOwn}
use agent_plane.McpServers.Reach.{Reaches, reconcile_mcp_server-Reaches}
use agent_plane.Samples.{meta_of}

abbrev server : String → String → McpServer
server image external_endpoint = record {
  meta = meta_of "lark";
  spec = record {
    image = image;
    external_endpoint = external_endpoint;
    transport = "http";
    port = 0;
    replicas = 1;
    env = [];
    resources = "";
  };
  status = record {
    conditions = [];
    observed_generation = 0;
    endpoint = "";
    available_replicas = 0;
  };
}

abbrev hosted : McpServer
hosted = server "lark-mcp:v1" ""

abbrev vendor : McpServer
vendor = server "" "https://mcp.example"

abbrev live : Deployment
live = record {
  labels = [];
  replicas = 1;
  selector = [];
  strategy = none;
  template_labels = [];
  volumes = [];
  init_containers = [];
  containers = [];
  fs_group = none;
  service_account_name = "";
  runtime_class_name = none;
  available_replicas = 1;
}

-- The Deployment is the server's; the Service of its name is another's.
abbrev objects : ManagedObjects
objects = record {
  get_deployment = λ ns name. found (record { object = live; controller = some "uid-lark" });
  get_service = λ ns name. found (record {
    object = record { labels = []; selector = []; port_name = ""; port = 80 };
    controller = some "uid-other";
  });
  delete_deployment = λ ns name. deleted;
  delete_service = λ ns name. deleted;
  write_deployment = λ ns name set. none;
  write_service = λ ns name s. none;
}

abbrev published : McpServerStatus
published = record {
  conditions =
      record {
        type_of = "Ready";
        status = true;
        reason = "Reconciled";
        message = "deployment available";
        observed_generation = 1;
      }
      ∷ [];
  observed_generation = 1;
  endpoint = "http://lark.default.svc:8080";
  available_replicas = 1;
}

runs : (reconcile_mcp_server upserting objects hosted).written ≡ some published
unfolding reconcile_mcp_server show_nat digit upserting
runs = refl

fine : (reconcile_mcp_server upserting objects hosted).error ≡ none
unfolding reconcile_mcp_server
fine = refl

-- The server that became external deletes its Deployment and leaves the other's Service.
cleans_up :
    (reconcile_mcp_server upserting objects vendor).calls ≡ delete_deployment "default" "lark" ∷ []
unfolding reconcile_mcp_server delete_managed
cleans_up = refl

reconcile_mcp_server-IsOwn_example :
    All (IsOwn objects vendor) (reconcile_mcp_server upserting objects vendor).calls
reconcile_mcp_server-IsOwn_example = reconcile_mcp_server-IsOwn upserting objects vendor

reconcile_mcp_server-Reaches_example :
    (ns name : String) × (set : Deployment → Deployment) × (s : Service) × ((reconcile_mcp_server
        upserting objects hosted).calls
      ≡ write_deployment ns name set ∷ write_service ns name s ∷ [])
    × ((d : Deployment) → Reaches published.endpoint ns name s (set d))
reconcile_mcp_server-Reaches_example =
    reconcile_mcp_server-Reaches upserting objects hosted published refl runs fine
