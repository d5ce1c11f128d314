-- ===== src/Examples/Steady.antt =====
-- A host for the examples: the in-memory client, with removals that always work.
use inferia_worker.Common.{◌≡◌, refl, String, [], ◌∷◌, true, false, none}
use inferia_worker.Recipes.Plan.{Plan, zero_plan, ContainerPlan, DeploymentPlan, producer, consumer}
use inferia_worker.Docker.Fake.{Client, remove, new as new_client}
use inferia_worker.Docker.Fake.AsHost.{
  FakeHost, fake_host, fake_laws, back, within-remove, remove-there,
}
use inferia_worker.Runtime.Host.{Host, HostLaws, Ctx}
use inferia_worker.Runtime.State.{Runtime, new}

abbrev pub steady : Client → Client
steady c = record c { errors = record c.errors { remove_err = none } }

abbrev pub steady_host : Host
steady_host = record fake_host { remove = λ x c w. back w (remove false (steady w.client) c) }

pub steady_laws : HostLaws steady_host
steady_laws = record {
  pull_makes = fake_laws.pull_makes;
  remove_by_name_makes = fake_laws.remove_by_name_makes;
  start_makes = fake_laws.start_makes;
  stop_makes = fake_laws.stop_makes;
  remove_makes = λ x i w c p. within-remove false (steady w.client) i c p;
  remove_image_makes = fake_laws.remove_image_makes;
  ollama_makes = fake_laws.ollama_makes;
  probe_makes = fake_laws.probe_makes;
  pause_makes = fake_laws.pause_makes;
  create_failed = fake_laws.create_failed;
  create_made = fake_laws.create_made;
  removed = λ x c w p. remove-there false (steady w.client) c p;
  probe_time = fake_laws.probe_time;
  pause_time = fake_laws.pause_time;
}

pub steady_works : (x : Ctx) (c : String) (w : FakeHost) → (steady_host.remove x c w).1 ≡ none
unfolding remove
steady_works x c w = refl

-- A host whose third probe succeeds.
abbrev pub world : FakeHost
world = record {
  client = new_client;
  clock = 100;
  answers = false ∷ false ∷ true ∷ [];
  cancelled = false;
}

abbrev pub worker : Runtime FakeHost
worker =
    new
      (record {
        network = "inferia";
        advertise_host = "";
        pull_timeout = 0;
        readiness_timeout = 0;
        readiness_poll_interval = 0;
      })
      world

abbrev pub plan : Plan
plan = record zero_plan {
  image = "vllm/vllm-openai";
  container_name = "inferia-vllm-d1";
  container_port = 8000;
  ready_path = "/health";
}

abbrev pub replica : ContainerPlan
replica = record {
  image = "vllm/vllm-openai";
  cmd = [];
  entrypoint = [];
  env = [];
  mounts = [];
  container_port = 8000;
  gpu_indices = 0 ∷ [];
  shm_size = 0;
  ready_path = "/health";
  role = producer;
  replica_idx = 0;
}

abbrev pub group_plan : DeploymentPlan
group_plan = record {
  deployment_id = "d2";
  model = "llama";
  prefill = replica ∷ [];
  decode = record replica { role = consumer } ∷ [];
  container_prefix = "";
}
