-- ===== src/Runtime/State.antt =====
-- The state of internal/runtime: state.go, deployment.go, and the types, the accessors and the
-- mutators of runtime.go. `W` is the state of the host.
pub mod Updates
use inferia_worker.Common.{
  ℕ, zero, suc, ◌+◌, ◌-◌, ◌%◌, ◌^◌, ◌≡◌, refl, String, List, [], ◌∷◌, ◌++◌, map, Bool, true, false,
  Option, none, some, ite, string_dec, Dict, lookup, insert, delete, string_key, Key, ◌*◌, keys,
  if◌then◌else◌, ◌==◌, ltb, length, get_elem?, ◌&◌, itoa,
}
use inferia_worker.Recipes.Plan.{Plan, zero_plan, KvRole}
use inferia_worker.Runtime.Ports.{PortAllocator, new_port_allocator}
use inferia_worker.Runtime.Progress.{
  ProgressLog, new_progress_log, append, mark_container_started, mark_failed,
}

pub data State : Type 0 where
  absent pulling starting running stopping failed : State

unfoldable pub State-discrete : Discrete State
State-discrete = hlevel

instance abbrev pub state_key : Key State
state_key = record { dec_eq = State-discrete }

unfoldable pub state_text : State → String
state_text absent = "absent"
state_text pulling = "pulling"
state_text starting = "starting"
state_text running = "running"
state_text stopping = "stopping"
state_text failed = "failed"

pub record ContainerInfo : Type 0 where
  pub container_id : String
  pub host_port : ℕ
  pub role : KvRole
  pub replica_idx : ℕ

-- The counters are uint32.
pub record DeploymentGroup : Type 0 where
  pub id : String
  pub model : String
  pub prefill : List ContainerInfo
  pub decode : List ContainerInfo
  pub prefill_next : ℕ
  pub decode_next : ℕ

pub record Deployment : Type 0 where
  pub container_id : String
  pub host_port : ℕ
  pub endpoint_url : String
  pub state : State
  pub plan : Plan
  pub prog : ProgressLog
  pub entered_at : Dict State ℕ

pub record Config : Type 0 where
  pub network : String
  pub advertise_host : String
  pub pull_timeout : ℕ
  pub readiness_timeout : ℕ
  pub readiness_poll_interval : ℕ

abbrev pub new_deployment : Deployment
new_deployment = record {
  container_id = "";
  host_port = 0;
  endpoint_url = "";
  state = absent;
  plan = zero_plan;
  prog = new_progress_log;
  entered_at = [];
}

abbrev pub second : ℕ
second = 1000000000

abbrev or_default : ℕ → ℕ → ℕ
or_default n d = if n == 0 then d else n

unfoldable pub with_defaults : Config → Config
with_defaults c = record c {
  readiness_poll_interval = or_default c.readiness_poll_interval 500000000;
  readiness_timeout = or_default c.readiness_timeout (180 * second);
  pull_timeout = or_default c.pull_timeout (1800 * second);
  advertise_host = ite (string_dec c.advertise_host "") "127.0.0.1" c.advertise_host;
}

pub record Runtime (W : Type 0) : Type 0 where
  pub cfg : Config
  pub deployments : Dict String Deployment
  pub groups : Dict String DeploymentGroup
  pub host_ports : PortAllocator
  pub prefill_ports : PortAllocator
  pub decode_ports : PortAllocator
  pub world : W

unfoldable pub running_ids : Dict String Deployment → List String
running_ids [] = []
running_ids ((id, d) ∷ m) =
    let rest = running_ids m in ite (State-discrete d.state running) (id ∷ rest) rest

module _ {W : Type 0} where
  unfoldable pub new : Config → W → Runtime W
  unfolding with_defaults
  new cfg world = record {
    cfg = with_defaults cfg;
    deployments = [];
    groups = [];
    host_ports = new_port_allocator 19000 19999;
    prefill_ports = new_port_allocator 19000 19499;
    decode_ports = new_port_allocator 19500 19999;
    world = world;
  }

  unfoldable pub status_of : Runtime W → String → State
  status_of r id = elim (lookup id r.deployments) [ none ↦ absent | some d ↦ d.state ]

  unfoldable pub endpoint_url : Runtime W → String → String
  endpoint_url r id = elim (lookup id r.deployments) [ none ↦ "" | some d ↦ d.endpoint_url ]

  unfoldable pub container_for_deployment : Runtime W → String → String
  container_for_deployment r id = elim (lookup id r.deployments) [
    | none ↦ ""
    | some d ↦ d.container_id
  ]

  unfoldable pub deployment_known : Runtime W → String → Bool
  deployment_known r id = elim (lookup id r.deployments) [ none ↦ false | some d ↦ true ]

  unfoldable pub loaded_deployments : Runtime W → List String
  unfolding running_ids
  loaded_deployments r = running_ids r.deployments ++ keys r.groups

  -- The mutators. A deployment that is not in the map is left out.
  abbrev pub update : Runtime W → String → (Deployment → Deployment) → Runtime W
  update r id f = elim (lookup id r.deployments) [
    | none ↦ r
    | some d ↦ record r { deployments = insert id (f d) r.deployments }
  ]

  unfoldable pub get_or_create : Runtime W → String → Runtime W
  get_or_create r id = elim (lookup id r.deployments) [
    | some d ↦ r
    | none ↦ record r { deployments = insert id new_deployment r.deployments }
  ]

  unfoldable pub set_state : Runtime W → ℕ → String → State → Runtime W
  set_state r now id s =
      update r id (λ d. record d { state = s; entered_at = insert s now d.entered_at })

  unfoldable pub set_container_id : Runtime W → String → String → Runtime W
  set_container_id r id cid = update r id (λ d. record d { container_id = cid })

  unfoldable pub drop_deployment : Runtime W → String → Runtime W
  drop_deployment r id = record r { deployments = delete id r.deployments }

  -- `d.prog.append(line)`. The log of a deployment never panics (Progress/Invariant), so the old log
  -- here is only the form of the case.
  unfoldable pub append_progress : Runtime W → String → String → Runtime W
  append_progress r id line =
      update r id
        (λ d. record d { prog = elim (append d.prog line) [ none ↦ d.prog | some p ↦ p ] })

  unfoldable pub append_lines : Runtime W → String → List String → Runtime W
  append_lines r id [] = r
  append_lines r id (line ∷ lines) = append_lines (append_progress r id line) id lines

  unfoldable pub progress_started : Runtime W → String → String → Runtime W
  progress_started r id cid = update r id (λ d. record d {
    prog = elim (mark_container_started d.prog cid) [ none ↦ d.prog | some p ↦ p ];
  })

  unfoldable pub progress_failed : Runtime W → String → Runtime W
  progress_failed r id =
      update r id
        (λ d. record d { prog = elim (mark_failed d.prog) [ none ↦ d.prog | some p ↦ p ] })

  abbrev pub at_world : Runtime W → W → Runtime W
  at_world r w = record r { world = w }
