-- ===== src/Recipes/Plan.antt =====
-- The plans of internal/runtime/recipes: Plan, Mount and BuildInput of recipes.go, and plan.go. Ports, sizes and
-- indices are not negative; a slice that is nil is an empty list.
use inferia_worker.Common.{ℕ, String, List, [], Dict, Bool, lookup, string_key, none, some}

pub record Mount : Type 0 where
  pub kind : String
  pub source : String
  pub target : String
  pub read_only : Bool

pub record Plan : Type 0 where
  pub image : String
  pub container_name : String
  pub cmd : List String
  pub entrypoint : List String
  pub env : Dict String String
  pub mounts : List Mount
  pub container_port : ℕ
  pub host_port : ℕ
  pub gpu_indices : List ℕ
  pub shm_size : ℕ
  pub ready_path : String
  pub readiness_timeout : ℕ

-- Go's zero value of a plan.
abbrev pub zero_plan : Plan
zero_plan = record {
  image = "";
  container_name = "";
  cmd = [];
  entrypoint = [];
  env = [];
  mounts = [];
  container_port = 0;
  host_port = 0;
  gpu_indices = [];
  shm_size = 0;
  ready_path = "";
  readiness_timeout = 0;
}

pub data KvRole : Type 0 where
  producer consumer : KvRole

pub record ContainerPlan : Type 0 where
  pub image : String
  pub cmd : List String
  pub entrypoint : List String
  pub env : Dict String String
  pub mounts : List Mount
  pub container_port : ℕ
  pub gpu_indices : List ℕ
  pub shm_size : ℕ
  pub ready_path : String
  pub role : KvRole
  pub replica_idx : ℕ

unfoldable pub to_plan : ContainerPlan → String → ℕ → Plan
to_plan cp container_name host_port = record {
  image = cp.image;
  container_name = container_name;
  cmd = cp.cmd;
  entrypoint = cp.entrypoint;
  env = cp.env;
  mounts = cp.mounts;
  container_port = cp.container_port;
  host_port = host_port;
  gpu_indices = cp.gpu_indices;
  shm_size = cp.shm_size;
  ready_path = cp.ready_path;
  readiness_timeout = 0;
}

pub record DeploymentPlan : Type 0 where
  pub deployment_id : String
  pub model : String
  pub prefill : List ContainerPlan
  pub decode : List ContainerPlan
  pub container_prefix : String

-- The input of a recipe, which `Config` configures.
pub record BuildInput (Config : Type 0) : Type 0 where
  pub deployment_id : String
  pub artifact_uri : String
  pub config : Config
  pub gpu_indices : List ℕ
  pub prefill_gpu_indices : List ℕ
  pub decode_gpu_indices : List ℕ
  pub host_port : ℕ
  pub env : Dict String String
  pub gpu_name : String
  pub gpu_memory_mib : ℕ
  pub prefill_replicas : ℕ
  pub decode_replicas : ℕ
  pub shm_size : ℕ

-- `env[key]`: a key that is missing reads as the empty text.
unfoldable pub env_get : Dict String String → String → String
env_get env key = elim (lookup key env) [ none ↦ "" | some v ↦ v ]
