-- ===== src/Docker/Spec.antt =====
-- internal/runtime/dockerclient/spec.go.
use inferia_worker.Common.{
  ℕ, String, List, [], ◌∷◌, map, Dict, Bool, true, false, Result, ok, err, ◌&◌, itoa, ◌==◌,
  if◌then◌else◌, ite, string_dec, dec_lt,
}
use Prim.Native.String.{len, slice}
use inferia_worker.Recipes.Plan.{Plan, Mount}

pub record PortBinding : Type 0 where
  pub host_ip : String
  pub host_port : String
  pub container_port : String

pub record ContainerSpec : Type 0 where
  pub name : String
  pub image : String
  pub cmd : List String
  pub entrypoint : List String
  pub env : Dict String String
  pub mounts : List Mount
  pub port_binding : PortBinding
  pub network_name : String
  pub restart_policy : String
  pub labels : Dict String String
  pub gpu_device_ids : List String
  pub gpu_capabilities : List (List String)
  pub shm_size : ℕ

abbrev pub label_prefixes : List String
label_prefixes =
    "inferia-vllm-" ∷ "inferia-sglang-" ∷ "inferia-ollama-" ∷ "inferia-infinity-"
    ∷ "inferia-triton-" ∷ "inferia-diff-" ∷ []

-- The loop over the prefixes. Positions count bytes.
unfoldable pub strip_prefixes : List String → String → String
strip_prefixes [] name = name
strip_prefixes (p ∷ ps) name =
    let rest = strip_prefixes ps name in
    ite (dec_lt (len p) (len name))
      (ite (string_dec (slice name 0 (len p)) p) (slice name (len p) (len name)) rest) rest

unfoldable pub label_deployment_id : String → String
unfolding strip_prefixes
label_deployment_id container_name = strip_prefixes label_prefixes container_name

abbrev pub cdi_nvidia_vendor : String
cdi_nvidia_vendor = "nvidia.com/gpu"

abbrev is_empty : String → Bool
is_empty s = ite (string_dec s "") true false

unfoldable pub build_container_spec : Plan → String → Result ContainerSpec
unfolding label_deployment_id
build_container_spec p network_name =
    if is_empty p.image
    then err "plan.Image is required"
    else if is_empty p.container_name
    then err "plan.ContainerName is required"
    else if p.container_port == 0
    then err "plan.ContainerPort must be > 0"
    else if p.host_port == 0
    then err "plan.HostPort must be > 0"
    else ok (record {
      name = p.container_name;
      image = p.image;
      cmd = p.cmd;
      entrypoint = p.entrypoint;
      env = p.env;
      mounts = p.mounts;
      port_binding = record {
        host_ip = "127.0.0.1";
        host_port = itoa p.host_port;
        container_port = itoa p.container_port & "/tcp";
      };
      network_name = network_name;
      restart_policy = "no";
      labels =
          ("inferia.managed_by", "inferia-worker")
          ∷ ("inferia.deployment_id", label_deployment_id p.container_name)
          ∷ [];
      gpu_device_ids = map (λ i. cdi_nvidia_vendor & "=" & itoa i) p.gpu_indices;
      gpu_capabilities = ("gpu" ∷ []) ∷ [];
      shm_size = p.shm_size;
    })
