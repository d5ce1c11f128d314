-- ===== src/Inference/Registry.antt =====
-- The registry of deployments, internal/inference/registry.go. A group is shared with the runtime in
-- the source; here the entry holds the group as it was registered.
use inferia_worker.Common.{String, [], Option, some, Dict, lookup, insert, delete, string_key}
use inferia_worker.Runtime.State.{DeploymentGroup}

pub data DeploymentMode : Type 0 where
  mode_single mode_disagg : DeploymentMode

pub record DeploymentEntry : Type 0 where
  pub mode : DeploymentMode
  pub deployment_id : String
  pub model : String
  pub group : Option DeploymentGroup

pub record DeploymentRegistry : Type 0 where
  pub by_id : Dict String DeploymentEntry

unfoldable pub new_deployment_registry : DeploymentRegistry
new_deployment_registry = record { by_id = [] }

unfoldable pub register_disagg :
    DeploymentRegistry → String → String → DeploymentGroup → DeploymentRegistry
register_disagg r id model group = record {
  by_id =
      insert id
        (record { mode = mode_disagg; deployment_id = id; model = model; group = some group })
        r.by_id;
}

unfoldable pub deregister : DeploymentRegistry → String → DeploymentRegistry
deregister r id = record { by_id = delete id r.by_id }

unfoldable pub lookup_by_id : DeploymentRegistry → String → Option DeploymentEntry
lookup_by_id r id = lookup id r.by_id
