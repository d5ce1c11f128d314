-- ===== src/Lib.antt =====
-- A model of inferia-worker: a worker host that runs model servers in containers on the commands of
-- a control plane.
--
-- A command reaches the dispatcher (internal/dispatcher), which assigns GPUs, asks a recipe for a
-- plan and calls the runtime (internal/runtime). The runtime allocates ports, drives the Docker
-- daemon through the client of internal/runtime/dockerclient, waits for readiness, and keeps a
-- progress log per deployment. The dispatcher registers groups for the proxy (internal/inference)
-- and keeps the metrics (internal/metrics). The control channel (internal/control) replays the
-- results of commands it has seen and reconnects with a growing delay.
--
-- The files and the code:
--   Common           shared types, maps as association lists, tests, lemmas
--   Control.Dedup    internal/control/dedup.go: Run
--   Control.Commands  internal/control/channel.go: handle, after the tunnel
--   Control.Tunnel   internal/control/shell_tunnel.go: the sessions, and Handle (Control.Tunnel.Frames)
--   Control.Backoff  internal/control/channel.go: backoffFor, minInt
--   Auth.Bearer      internal/auth/middleware.go
--   Auth.TokenStore  internal/auth/store.go, over a file system that is a parameter
--   Config.Load      internal/config/config.go: LoadFrom; its patterns and integers in
--                    Config.Load.Formats
--   Config.Vllm, Config.Sglang, Config.Omni  internal/config/vllm, internal/config/sglang and
--                    internal/config/vllm/omni: the defaults for a GPU, and the Mooncake flags
--   Dispatcher.Gpu   internal/dispatcher/gpuallocator.go: Allocate, AllocateStatic, Release
--   Dispatcher.Models  internal/dispatcher/dispatcher.go: LoadModel (load), UnloadModel (unload)
--   Docker.Spec      internal/runtime/dockerclient/spec.go: BuildContainerSpec
--   Docker.Fake      internal/runtime/dockerclient/fake/fake.go, method by method
--   Inference.Registry  internal/inference/registry.go
--   Metrics.Histogram, Metrics.Collector  internal/metrics/histogram.go, collector.go
--   Recipes.Plan     internal/runtime/recipes/plan.go and the types of recipes.go
--   Recipes.Inputs, Recipes.Registry  internal/runtime/recipes/recipes.go: validate, sanitiseConfig
--                    and the shared parts; Get and MultiGet
--   Recipes.Vllm     internal/runtime/recipes/vllm.go and vllm_omni.go
--   Recipes.Sglang, Recipes.Others  sglang.go and others.go there
--   Recipes.Disaggregated  vllm_prefill_decode.go and sglang_prefill_decode.go there
--   Runtime.Host     what the runtime calls: the interface Client of dockerclient/client.go, the
--                    readiness probe, the pull through ollama and the clock, with the laws assumed
--   Runtime.State    internal/runtime/state.go, deployment.go, and runtime.go: New, the accessors,
--                    the mutators
--   Runtime.Load     internal/runtime/runtime.go: LoadModel in stages (load_model, load_port,
--                    load_pull, load_create, load_spec, load_start, load_ready, load_ollama,
--                    load_finish), waitReady, UnloadModel
--   Runtime.Group    internal/runtime/runtime.go: LoadDeploymentGroup, rollbackGroup,
--                    UnloadDeploymentGroup, and deployment.go: NextPrefill, NextDecode
--   Runtime.Ports    internal/runtime/portalloc.go: Next, Release
--   Runtime.Progress internal/runtime/progress.go: the log of a load and its followers
--   Shellbridge.Lines  internal/shellbridge/logs.go: forwardLines
--   Shellbridge.Resolve  internal/shellbridge/resolve.go: ResolveContainer
--   Shellbridge.ProgressLogs  internal/shellbridge/progress_logs.go: Stream
--   Shellbridge.Session  internal/shellbridge/shell.go: readPump, Close, WriteInput, Resize
--   Shellbridge.Host  internal/shellbridge/host_backend.go: Spawn, ensureImage
--   Inference.Bodies internal/inference/proxy.go: buildPrefillBody, buildDecodeBody
--   Inference.Proxy  internal/inference/proxy.go: handleDisagg
--   Inference.Routes internal/inference/proxy.go: the routing of NewProxy
--   Examples         runs of the theorems on concrete data
-- A child module proves what its first lines say about its parent.
--
-- A method that changes its receiver returns the new one. A panic is `none`. An error is a value
-- with its message. Go's maps are association lists, whose order stands for the unspecified one.
-- Numbers are natural; int64 counters and the uint32 of the round robin keep their wrap-around.
-- Calls follow one another and the mutexes are left out, commands and frames included, so that a
-- retry of a command that is still running is not seen; but in Control.Tunnel the steps are the
-- sections under the mutex, in any order, and in Shellbridge.Session the calls of the read pump and
-- of Close, in any order.
--
-- The loop of waitReady runs on fuel, one more round than the timeout has nanoseconds. Each round
-- takes at least one, so the fuel does not run out while the poll interval is positive, as New
-- makes it.
--
-- A float64 of an engine's configuration is given by its shortest decimal text, and an environment
-- by the function os.Getenv. Texts are taken to be ASCII where letters are compared without case.
--
-- Not modelled: the WebSocket, HTTP and PTY traffic, the forwarding to a single endpoint, the
-- telemetry readers, the admin server, the pull through ollama, and the wiring in cmd/worker.
-- Float64 arithmetic and sort.Slice are parameters of the GPU allocator, the recipes of the
-- dispatcher, url.Parse of the configuration, the file system of the token store, Docker's listing
-- of the resolution, the daemon of the host shell, and encoding/json and the answers of the
-- instances of the proxy.
pub mod Auth
pub mod Common
pub mod Config
pub mod Control
pub mod Dispatcher
pub mod Docker
pub mod Examples
pub mod Inference
pub mod Metrics
pub mod Recipes
pub mod Runtime
pub mod Shellbridge
