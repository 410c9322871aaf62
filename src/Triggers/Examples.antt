-- ===== src/Triggers/Examples.antt =====
-- Passes over a Trigger of a small cluster.
use agent_plane.Base.{
  String, ◌<>◌, true, false, Option, none, some, [], ◌∷◌, ◌==◌, ◌<◌, ◌≡◌, ◌⊎◌, ◌↔◌, refl, show_nat,
  digit, if◌then◌else◌,
}
use agent_plane.Api.{Agent, AgentRuntimeSpec, Credential, Trigger, TriggerStatus, condition_ready}
use agent_plane.Validation.Names.{first_duplicate, duplicate_error}
use agent_plane.Validation.Kinds.{validate_trigger}
use agent_plane.Cluster.{Reader, found, not_found, failed, ok, err, upserting}
use agent_plane.Runtime.Pod.{Deployment}
use agent_plane.Reconcile.Pass.Laws.{status_in}
use agent_plane.Reconcile.Workloads.{OwnedObjects, Service, write_runtime_service}
use agent_plane.Triggers.{
  agent_endpoint, secret_name_of, adapter_env, reconcile_adapter, trigger_pass, reconcile_trigger,
}
use agent_plane.Triggers.Variables.{variable, promised, adapter_env-variable}
use agent_plane.Triggers.Laws.{
  IsServable, IsServed, trigger_pass-verdict, reconcile_trigger-err_iff,
}
use agent_plane.Triggers.Address.{agent_endpoint-service}
use agent_plane.Samples.{meta_of, ref, bare_spec, bare_runtime, agent_of, empty_cluster}

abbrev support : Agent
support = agent_of "support" (record bare_spec { runtime = some bare_runtime })

abbrev bot_token : Credential
bot_token = record {
  meta = meta_of "bot-token";
  spec = record { secret_ref = record { name = "lark-secret"; key = "token" }; description = "" };
  status = record { conditions = []; observed_generation = 0; secret_found = none };
}

abbrev cluster : Reader
cluster = record empty_cluster {
  get_agent = λ ns name. if name == "support" then found support else not_found;
  get_credential = λ ns name. if name == "bot-token" then found bot_token else failed "timeout";
}

abbrev trigger_with : String → Trigger
trigger_with credential = record {
  meta = meta_of "lark";
  spec = record {
    agent_ref = ref "support";
    image = "lark:v1";
    credential_ref = some (ref credential);
    config = some "{}";
    replicas = 1;
    env = record { name = "LEVEL"; value = "debug"; value_from = none } ∷ [];
    resources = "";
  };
  status = record {
    conditions = [];
    observed_generation = 0;
    phase = "";
    available_replicas = 0;
    agent_endpoint = "";
  };
}

abbrev lark : Trigger
lark = trigger_with "bot-token"

abbrev live : Deployment
live = record {
  labels = [];
  replicas = 1;
  selector = [];
  strategy = none;
  template_labels = [];
  volumes = [];
  init_containers = [];
  containers = [];
  fs_group = none;
  service_account_name = "";
  runtime_class_name = none;
  available_replicas = 1;
}

abbrev running : OwnedObjects
running = record {
  get_claim = λ ns name. not_found;
  create_claim = λ c. none;
  write_deployment = λ ns name f. none;
  write_service = λ ns name s. none;
  get_deployment = λ ns name. if name == "lark-adapter" then found live else not_found;
}

abbrev address : String
address = "http://support-runtime.default.svc:8080"

abbrev written : TriggerStatus
written = record {
  conditions =
      record {
        type_of = "Ready";
        status = true;
        reason = "Reconciled";
        message = "adapter running";
        observed_generation = 1;
      }
      ∷ [];
  observed_generation = 1;
  phase = "Running";
  available_replicas = 1;
  agent_endpoint = address;
}

is_valid : (credential : String) → validate_trigger (trigger_with credential).spec ≡ none
unfolding validate_trigger duplicate_error first_duplicate
is_valid credential = refl

runs : trigger_pass upserting cluster running lark ≡ ok written
unfolding trigger_pass validate_trigger duplicate_error first_duplicate agent_endpoint
    reconcile_adapter show_nat digit upserting
runs = refl

trigger_pass-verdict_example :
    (written.observed_generation ≡ 1)
    × (((written.phase ≡ "Degraded")
          × (status_in condition_ready written.conditions ≡ some false)
          × ((endpoint secret_name : String) → ¬ (IsServable cluster lark endpoint secret_name)))
        ⊎ (IsServed cluster running lark written
            × (((written.phase ≡ "Running")
                  × (status_in condition_ready written.conditions ≡ some true)
                  × (0 < written.available_replicas))
                ⊎ ((written.phase ≡ "Pending")
                    × (status_in condition_ready written.conditions ≡ some false)
                    × (written.available_replicas ≡ 0)))))
trigger_pass-verdict_example = trigger_pass-verdict upserting cluster running lark written runs

-- Its Credential cannot be read.
abbrev unread : Trigger
unread = trigger_with "other"

reconcile_trigger-err_iff_example :
    (reconcile_trigger upserting cluster running (λ st. some "conflict") (found unread)
      ≡ some "timeout")
    ↔ (((endpoint : String) × (validate_trigger unread.spec ≡ none)
          × (agent_endpoint cluster unread ≡ ok endpoint)
          × ((secret_name_of cluster unread (some (ref "other")) ≡ err "timeout")
              ⊎ ((name : String) × (secret_name_of cluster unread (some (ref "other"))
                    ≡ ok (some name))
                  × (reconcile_adapter running unread endpoint name ≡ some "timeout"))))
        ⊎ ((st : TriggerStatus) × (trigger_pass upserting cluster running unread ≡ ok st)
            × (◌≡◌ {A = Option String} (some "conflict") (some "timeout"))))
reconcile_trigger-err_iff_example =
    reconcile_trigger-err_iff upserting cluster running unread (λ st. some "conflict") "timeout"

-- The update of a pass that comes to a status fails.
conflicts :
    reconcile_trigger upserting cluster running (λ st. some "conflict") (found lark)
    ≡ some "conflict"
unfolding reconcile_trigger
conflicts = rw (reconcile_trigger, runs) refl

reaches : agent_endpoint cluster lark ≡ ok address
unfolding agent_endpoint show_nat digit
reaches = refl

agent_endpoint-service_example :
    (rt : AgentRuntimeSpec) × (name : String) × (s : Service) × (support.spec.runtime ≡ some rt)
    × (write_runtime_service running support rt ≡ running.write_service "default" name s)
    × (address ≡ "http://" <> name <> "." <> "default" <> ".svc:" <> show_nat s.port)
agent_endpoint-service_example =
    agent_endpoint-service cluster running lark support address refl reaches

adapter_env-variable_example :
    variable "LEVEL" (adapter_env lark address "lark-secret")
    ≡ promised lark address "lark-secret" "LEVEL"
adapter_env-variable_example =
    adapter_env-variable lark address "lark-secret" "LEVEL" (is_valid "bot-token")
