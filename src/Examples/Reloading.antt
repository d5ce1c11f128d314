-- ===== src/Examples/Reloading.antt =====
-- A load that succeeds, and the next one.
use inferia_worker.Common.{◌≡◌, refl, ok, itoa, string_dec}
use inferia_worker.Docker.Spec.{build_container_spec, label_deployment_id, strip_prefixes}
use inferia_worker.Docker.Fake.{
  pull, create, start, stop, remove, remove_image, remove_by_name, new as new_client,
}
use inferia_worker.Runtime.Host.{cleanup}
use inferia_worker.Runtime.Ports.{new_port_allocator, next, is_used}
use inferia_worker.Runtime.Progress.{
  new_progress_log, append, fan_out, send, deliver, trim, mark_container_started, close_subs_locked,
  close_all, close,
}
use inferia_worker.Runtime.State.{
  State-discrete, new, with_defaults, status_of, endpoint_url, get_or_create, set_state,
  set_container_id, drop_deployment, append_progress, append_lines, progress_started,
}
use inferia_worker.Runtime.Load.{
  load_model, is_loaded, load_port, load_pull, load_create, load_spec, note_stale, load_start,
  load_ready, load_ollama, load_finish, wait_ready, wait_loop, readiness_timeout,
}
use inferia_worker.Runtime.Load.Again.{load_model-again}
use inferia_worker.Examples.Steady.{steady_host, steady_laws, steady_works, worker, plan}

loaded : (load_model steady_host worker "d1" plan).1 ≡ ok "http://127.0.0.1:19000"
unfolding load_model is_loaded load_port load_pull load_create load_spec note_stale load_start
    load_ready load_ollama load_finish wait_ready wait_loop readiness_timeout new with_defaults
    status_of endpoint_url get_or_create set_state set_container_id drop_deployment append_progress
    append_lines progress_started new_port_allocator next is_used new_progress_log append fan_out
    send deliver trim mark_container_started close_subs_locked close_all close build_container_spec
    label_deployment_id strip_prefixes pull create start stop remove remove_image remove_by_name
    new_client itoa string_dec State-discrete
loaded = refl

load_model-again_example :
    load_model steady_host (load_model steady_host worker "d1" plan).0 "d1" plan
    ≡ ((load_model steady_host worker "d1" plan).0, ok "http://127.0.0.1:19000")
load_model-again_example =
    load_model-again steady_host steady_laws (steady_works cleanup) worker "d1"
      "http://127.0.0.1:19000" plan plan loaded (λ e. cc e)
