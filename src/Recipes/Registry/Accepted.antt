-- ===== src/Recipes/Registry/Accepted.antt =====
-- BuildContainerSpec takes the plans of the registered recipes.
use Prim.Native.String.{String}
use inferia_worker.Common.{
  string_dec, map, itoa, ◌≤◌, ◌≡◌, refl, ap, ◌∙◌, Bool, true, false, some, Result, ok, ite, lookup,
  string_key, arith, ◌&◌, ◌==◌,
}
use inferia_worker.Config.Values.{Getenv}
use inferia_worker.Recipes.Plan.{Plan}
use inferia_worker.Recipes.Inputs.{Input}
use inferia_worker.Recipes.Registry.{get}
use inferia_worker.Docker.Spec.{ContainerSpec, build_container_spec, cdi_nvidia_vendor}
use inferia_worker.Recipes.Registry.Building.{For, get-Builds}

abbrev is_empty : String → Bool
is_empty s = ite (string_dec s "") true false

passes :
    (i : Input) (p : Plan)
    → For i p
    → (is_empty p.image ≡ false)
      × (is_empty p.container_name ≡ false)
      × ((p.container_port == 0) ≡ false)
      × ((p.host_port == 0) ≡ false)
passes i p f = (
  ground (arith, f.image),
  ground (arith, f.named),
  ground (arith, f.listens),
  ground (arith, f.on_host, f.from_one),
)

build_container_spec-For :
    (i : Input) (p : Plan) (network : String)
    → For i p
    → (s : ContainerSpec) × (build_container_spec p network ≡ ok s)
      × (s.env ≡ p.env)
      × (s.gpu_device_ids ≡ map (λ g. cdi_nvidia_vendor & "=" & itoa g) p.gpu_indices)
      × (s.port_binding.host_port ≡ itoa p.host_port)
unfolding build_container_spec
build_container_spec-For i p network f =
    let (a, b, c, d) = passes i p f in rw (a, b, c, d) (_, refl, refl, refl, refl)

-- Whatever a registered recipe builds for an input, BuildContainerSpec accepts, on any network: the
-- container gets exactly the GPUs of the input, every variable of the user with the user's value,
-- and the port of the input, which is between 1 and 65535.
pub get-Accepted :
    (getenv : Getenv) (name network : String) (build : Input → Result Plan) (i : Input) (p : Plan)
    → get getenv name ≡ ok build
    → build i ≡ ok p
    → (s : ContainerSpec) × (build_container_spec p network ≡ ok s)
      × (s.gpu_device_ids ≡ map (λ g. cdi_nvidia_vendor & "=" & itoa g) i.gpu_indices)
      × ((k v : String) → lookup k i.env ≡ some v → lookup k s.env ≡ some v)
      × (s.port_binding.host_port ≡ itoa i.host_port)
      × (1 ≤ i.host_port)
      × (i.host_port ≤ 65535)
get-Accepted getenv name network build i p g e =
    let f = get-Builds getenv name build g i p e in
    let (s, accepted, env, ids, bound) = build_container_spec-For i p network f in
    (
      s,
      accepted,
      ids ∙ ap (map (λ g. cdi_nvidia_vendor & "=" & itoa g)) f.gpus,
      λ k v h. ap (lookup k) env ∙ f.users k v h,
      bound ∙ ap itoa f.on_host,
      f.from_one,
      f.to_last,
    )
