-- ===== src/Lib.antt =====
-- agent-plane is a Kubernetes Operator and a Registry. The Operator reconciles Agents: it validates
-- each, resolves what it refers to, merges the policies that apply and refuses what they forbid. The
-- Registry serves the resolved configuration to the runtimes and streams its changes.
--
-- Api: api/v1alpha1/*_types.go, the specs and statuses as records, and ApplyClassDefaults.
-- Policy: api/v1alpha1/policy_merge.go and skill_scope.go. Policy.Access is mergeAccessRule and
--   Permits, Policy.Merge is MergePolicies, Policy.Violations is Violations, Policy.Rules is
--   MatchToolRule, Policy.Skills is SkillToolViolations.
-- Validation: api/v1alpha1/validation.go, one function for each Validate method and its helpers; an
--   error is its text.
-- Cluster: the API server as a parameter, one function for each kind that answers a Get, and
--   meta.SetStatusCondition as a record of its documented behaviour.
-- Resolve: resolveRefs, collect, dedupe and configHash of internal/controller/agent_controller.go.
--   One state of the cluster answers all reads of a pass.
-- Registry: cmd/registry/main.go. Registry.Hub is the hub with its channels as bounded buffers,
--   Registry.Watch is handleWatch, Registry.Version is isNewerRV, Registry.Config is buildConfigFrom
--   and what it calls, Registry.Views the payload, Registry.Server is handleAgent, handleConfig and
--   onAgentChange.
-- Runtime: userVolumes, credentialVolumes, workspacePodSpec, cloneInitContainer and the Deployment of
--   reconcileRuntime in internal/controller/agent_controller.go.
-- Reconcile: the rest of that file. Reconcile.Workloads is reconcileRuntime over the API server's
--   answers for owned objects, Reconcile.Peers is peerViolations and reconcilePeer, Reconcile.Pass is
--   Reconcile: the status that it writes, or the error that it returns. Reconcile.Pass.Rest is about a
--   pass over its own result, Reconcile.Pass.Served about what the Registry serves after one,
--   Reconcile.Pass.Order about the errors that it returns.
-- Index: internal/controller/fieldindex.go and the watches of SetupWithManager: which Agents a changed
--   object wakes, and in Index.Watches which objects of the other kinds. List by an index key is a
--   parameter.
-- Controllers: internal/controller/refutil.go and the Reconcile of the Model, Tool, ToolSet,
--   AgentClass, Policy, ToolPolicy, PromptTemplate, Skill and Credential controllers.
-- Triggers: internal/controller/trigger_controller.go. Triggers.Variables and Triggers.Address are
--   about the environment and the address that the adapter is given. The update of the
--   status is an argument of reconcile_trigger, whose errors it returns; the other passes end with the
--   status that they hand to it.
-- McpServers: internal/controller/mcpserver_controller.go. A pass is the list of its calls with the
--   status that it writes and the error that it returns.
-- Webhooks: internal/webhook/v1alpha1/agent_webhook.go and tool_webhook.go.
-- ExampleMcp: cmd/example-mcp/main.go, the server of the demonstration. ExampleMcp.Content holds what
--   it answers with, ExampleMcp.Rpc its messages, ExampleMcp.Tools the handlers of the tools.
-- Base: helpers on tests, lists, text, sets and sorting. Samples: objects for the examples.
--
-- Strings are the native ones, whose characters stand for the bytes and runes of the source. Numbers
-- are natural; ParseUint keeps its bound of 64 bits. No function needs fuel: each loop goes over a
-- list. Resource requirements and quantities are opaque text, and resource.ParseQuantity, SHA-256 and
-- json.Marshal of a spec or a configuration are arguments.
--
-- Not modelled: the wiring of controllers and of the HTTP servers, generated code, the script server in
-- JavaScript, and Kubernetes itself.
pub mod Base
pub mod Api
mod Samples
pub mod Policy
pub mod Validation
pub mod Cluster
pub mod Resolve
pub mod Runtime
pub mod Reconcile
pub mod Index
pub mod Controllers
pub mod Triggers
pub mod McpServers
pub mod Registry
pub mod Webhooks
pub mod ExampleMcp
