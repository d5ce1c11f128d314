-- ===== src/Examples/Loading.antt =====
-- Runs of internal/runtime.
use inferia_worker.Common.{
  length, ◌+◌, ◌≡◌, refl, [], ◌∷◌, true, false, some, Result, arith, lookup, nat_key,
}
use inferia_worker.Runtime.Host.{cleanup, request}
use inferia_worker.Runtime.State.{ContainerInfo, DeploymentGroup, Runtime, new, with_defaults}
use inferia_worker.Recipes.Plan.{producer}
use inferia_worker.Runtime.Ports.{new_port_allocator, next, Next, next-Next}
use inferia_worker.Runtime.Progress.{
  ProgressLog, progress_log_cap, new_progress_log, subscribe, appends, starts, fails, subscribes,
  run,
}
use inferia_worker.Runtime.Progress.Invariant.{Safe, new_progress_log-Inv, run-new}
use inferia_worker.Runtime.Progress.Followers.{
  append_all, last, append_all-new, append_all-subscribe,
}
use inferia_worker.Runtime.Load.{load_model, unload_model, wait_ready}
use inferia_worker.Runtime.Load.Ending.{load_model-Ended}
use inferia_worker.Runtime.Load.Cleanup.{Ended}
use inferia_worker.Runtime.Load.Waiting.{Waits, wait_ready-Waits}
use inferia_worker.Runtime.Load.Unloading.{Unloaded, unload_model-Unloaded}
use inferia_worker.Runtime.Group.{load_deployment_group, rollback_group}
use inferia_worker.Runtime.Group.Rollback.{GroupEnded, load_deployment_group-Ended}
use inferia_worker.Runtime.Group.Leak.{rollback_group-cancelled}
use inferia_worker.Runtime.Group.RoundRobin.{prefill_run, Rotation, prefill_run-Rotation}
use inferia_worker.Docker.Fake.AsHost.{FakeHost, fake_host}
use inferia_worker.Examples.Steady.{
  steady_host, steady_laws, steady_works, world, worker, plan, group_plan,
}

load_model-Ended_example :
    Ended steady_host steady_laws world "d1" (load_model steady_host worker "d1" plan)
unfolding new
load_model-Ended_example =
    load_model-Ended steady_host steady_laws (steady_works cleanup) worker "d1" plan

load_deployment_group-Ended_example :
    (x : Runtime FakeHost × Result DeploymentGroup) × (load_deployment_group steady_host worker
        group_plan
      ≡ some x)
    × GroupEnded steady_host steady_laws (steady_works cleanup) (steady_works request) world "d2" x
unfolding new
load_deployment_group-Ended_example =
    load_deployment_group-Ended steady_host steady_laws (steady_works cleanup)
      (steady_works request) worker group_plan (λ e. cc e)

unload_model-Unloaded_example :
    Unloaded steady_host
      (load_model steady_host worker "d1" plan).0
      "d1"
      (unload_model steady_host (load_model steady_host worker "d1" plan).0 "d1")
unload_model-Unloaded_example =
    unload_model-Unloaded steady_host steady_laws (load_model steady_host worker "d1" plan).0 "d1"

wait_ready-Waits_example :
    Waits steady_host steady_laws "http://127.0.0.1:19000/health"
      (100 + 1000000000)
      worker.cfg.readiness_poll_interval
      world
      (wait_ready steady_host worker "http://127.0.0.1:19000/health" 1000000000)
unfolding new with_defaults
wait_ready-Waits_example =
    wait_ready-Waits steady_host steady_laws worker "http://127.0.0.1:19000/health" 1000000000
      (omega arith)

next-Next_example : Next (new_port_allocator 19000 19999) (next (new_port_allocator 19000 19999))
next-Next_example = next-Next (new_port_allocator 19000 19999)

run-new_example :
    Safe (run new_progress_log (subscribes ∷ appends "Pulling" ∷ starts "c1" ∷ fails ∷ []))
run-new_example = run-new (subscribes ∷ appends "Pulling" ∷ starts "c1" ∷ fails ∷ [])

append_all-new_example :
    (q : ProgressLog) × (append_all new_progress_log ("a" ∷ "b" ∷ []) ≡ some q)
    × (q.lines ≡ last progress_log_cap ("a" ∷ "b" ∷ []))
append_all-new_example = append_all-new ("a" ∷ "b" ∷ [])

append_all-subscribe_example :
    (q : ProgressLog) × (append_all (subscribe new_progress_log).0 ("a" ∷ "b" ∷ []) ≡ some q)
    × ((subscribe new_progress_log).1 ≡ new_progress_log.lines)
    × (lookup (subscribe new_progress_log).2 q.subs
        ≡ some (record { buffer = "a" ∷ "b" ∷ []; closed = false }))
unfolding new_progress_log
append_all-subscribe_example =
    append_all-subscribe new_progress_log ("a" ∷ "b" ∷ []) new_progress_log-Inv refl (omega arith)

abbrev first_replica : ContainerInfo
first_replica = record { container_id = "c1"; host_port = 19000; role = producer; replica_idx = 0 }

rollback_group-cancelled_example :
    rollback_group fake_host (first_replica ∷ []) [] (record world { cancelled = true })
    ≡ record world { cancelled = true }
rollback_group-cancelled_example =
    rollback_group-cancelled (first_replica ∷ []) [] (record world { cancelled = true }) refl

abbrev group : DeploymentGroup
group = record {
  id = "d2";
  model = "llama";
  prefill = first_replica ∷ record first_replica { host_port = 19001 } ∷ [];
  decode = [];
  prefill_next = 7;
  decode_next = 0;
}

prefill_run-Rotation_example :
    Rotation group.prefill 7 (prefill_run 3 group).1 × (length (prefill_run 3 group).1 ≡ 3)
prefill_run-Rotation_example = prefill_run-Rotation 3 group (λ e. cc e) (omega arith)
