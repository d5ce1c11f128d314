-- ===== src/Inference/Routes.antt =====
-- internal/inference/proxy.go: where NewProxy sends a request.
use text.Mathlib.Text.{starts_with}
use inferia_worker.Common.{
  String, Bool, true, false, not, ◌&&◌, if◌then◌else◌, Option, none, some, string_dec, contains,
  ite, ◌>>=◌,
}
use inferia_worker.Inference.Registry.{
  DeploymentRegistry, DeploymentEntry, DeploymentMode, mode_single, mode_disagg, lookup_by_id,
}

-- To the next handler, status 503, the two phases, or one endpoint.
pub data Route : Type 0 where
  passed_on unavailable : Route
  to_group : DeploymentEntry → Route
  to_endpoint : String → Route

abbrev is_diffusion : Option String → Bool
is_diffusion none = false
is_diffusion (some recipe) = contains recipe "inferiadiffusion"

abbrev is_disagg : DeploymentMode → Bool
is_disagg mode_single = false
is_disagg mode_disagg = true

-- `base` is EndpointURL, which is not asked without a deployment.
unfoldable pub single_route : String → String → Route
single_route id base =
    ite (string_dec id "") unavailable (ite (string_dec base "") unavailable (to_endpoint base))

unfoldable pub registered : Option DeploymentEntry → String → String → Route
unfolding single_route
registered none id base = single_route id base
registered (some e) id base = if is_disagg e.mode then to_group e else single_route id base

-- `recipe` is that of DeploymentInfo, `registry` is none where the proxy has no registry.
unfoldable pub route : String → String → Option String → Option DeploymentRegistry → String → Route
unfolding contains registered lookup_by_id
route path id recipe registry base =
    let generates = starts_with path "/generate/" in
    let known = ite (string_dec id "") false (is_diffusion recipe) in
    let entry = registry >>= λ r. lookup_by_id r id in
    if not (starts_with path "/v1/") && not generates
    then passed_on
    else if generates && not known
    then passed_on
    else registered entry id base
