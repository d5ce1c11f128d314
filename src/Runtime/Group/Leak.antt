-- ===== src/Runtime/Group/Leak.antt =====
-- The rollback of internal/runtime/runtime.go under a request that is cancelled, on the in-memory
-- client, which like the engine fails each call of a cancelled context.
use inferia_worker.Common.{
  ◌≡◌, refl, String, List, [], ◌∷◌, ◌∙◌, Bool, true, ite, string_dec, ap, arith,
}
use inferia_worker.Docker.Fake.{Client, stop, remove}
use inferia_worker.Docker.Fake.AsHost.{FakeHost, fake_host}
use inferia_worker.Runtime.Host.{request}
use inferia_worker.Runtime.State.{ContainerInfo}
use inferia_worker.Runtime.Group.{remove_all, rollback_group}

stop-cancelled : (b : Bool) (c : Client) (i : String) → b ≡ true → (stop b c i).0 ≡ c
unfolding stop
stop-cancelled b c i e = ground arith

remove-cancelled : (b : Bool) (c : Client) (i : String) → b ≡ true → (remove b c i).0 ≡ c
unfolding remove
remove-cancelled b c i e = ground arith

stop_remove-cancelled :
    (w : FakeHost) (i : String)
    → w.cancelled ≡ true
    → (fake_host.remove request i (fake_host.stop request i w).0).0 ≡ w
stop_remove-cancelled w i e =
    ap (λ c. record w { client = c })
      (ap (λ c. (remove w.cancelled c i).0) (stop-cancelled w.cancelled w.client i e)
        ∙ remove-cancelled w.cancelled w.client i e)

remove_all-cancelled :
    (l : List ContainerInfo) (w : FakeHost)
    → w.cancelled ≡ true
    → remove_all fake_host request l w ≡ w
unfolding remove_all
remove_all-cancelled [] w e = refl
remove_all-cancelled (ci ∷ l) w e =
    elim (string_dec ci.container_id "")
      as (λ q.
        remove_all fake_host request l (
          ite q w
            (fake_host.remove request ci.container_id
              (fake_host.stop request ci.container_id w).0).0)
        ≡ w) [
          | yes k ↦ remove_all-cancelled l w e
          | no n ↦ rw (stop_remove-cancelled w ci.container_id e) (remove_all-cancelled l w e)
        ]

-- If the request is cancelled while a group is being loaded, its rollback changes nothing on the
-- host: the containers already started stay.
pub rollback_group-cancelled :
    (prefill decode : List ContainerInfo) (w : FakeHost)
    → w.cancelled ≡ true
    → rollback_group fake_host prefill decode w ≡ w
unfolding rollback_group
rollback_group-cancelled prefill decode w e =
    rw (remove_all-cancelled prefill w e) (remove_all-cancelled decode w e)
