-- ===== src/Docker/Fake/AsHost.antt =====
-- The fake of internal/runtime/dockerclient/fake/fake.go does what the runtime relies on.
use inferia_worker.Common.{
  sym, subst, ℕ, ◌+◌, ◌≡◌, refl, String, List, [], ◌∷◌, Bool, true, false, none, some, ok, err, ite,
  string_dec, ◌⊎◌, inl, inr, Dict, lookup, insert, delete, string_key, lookup-insert, lookup-delete,
  arith, if◌then◌else◌, Option-cases,
}
use inferia_worker.Docker.Spec.{ContainerSpec}
use inferia_worker.Docker.Fake.{
  new_container, touch, Client, Inspect, pull, create, start, stop, remove, remove_image,
  remove_by_name,
}
use inferia_worker.Runtime.Host.{Host, HostLaws, Ctx, request, cleanup}

-- The fake with a clock, the answers that the probes will give, and whether the request is cancelled.
pub record FakeHost : Type 0 where
  pub client : Client
  pub clock : ℕ
  pub answers : List Bool
  pub cancelled : Bool

unfoldable pub there : Dict String Inspect → String → Bool
there m id = elim (lookup id m) [ none ↦ false | some s ↦ true ]

abbrev pub cancelled_in : Ctx → FakeHost → Bool
cancelled_in request w = w.cancelled
cancelled_in cleanup w = false

-- The host with the client that the call left, and what the call returned.
abbrev pub back {ℓ} : {A : Type ℓ} → FakeHost → Client × A → FakeHost × A
back w (c, a) = (record w { client = c }, a)

abbrev pub probe : FakeHost → FakeHost × Bool
probe w = elim w.answers [ [] ↦ (w, false) | b ∷ bs ↦ (record w { answers = bs }, b) ]

abbrev pub fake_host : Host
fake_host = record {
  W = FakeHost;
  pull = λ x i w. let (c, lines, e) = pull w.client i in (record w { client = c }, lines, e);
  remove_by_name = λ x n w. back w (remove_by_name w.client n);
  create = λ x s w. back w (create w.client s);
  start = λ x c w. back w (start w.client c);
  stop = λ x c w. back w (stop (cancelled_in x w) w.client c);
  remove = λ x c w. back w (remove (cancelled_in x w) w.client c);
  remove_image = λ x i w. back w (remove_image w.client i);
  ollama_pull_if_needed = λ x p u t w. (w, none);
  present = λ w c. there w.client.containers c;
  probe = λ u w. probe w;
  pause = λ t w. (record w { clock = w.clock + t }, if w.cancelled then false else true);
  now = λ w. w.clock;
}

there-delete :
    (m : Dict String Inspect) (i d : String)
    → there (delete i m) d ≡ ite (string_dec i d) false (there m d)
unfolding there
there-delete m i d = rw (there, lookup-delete i d m) (ground arith)

there-insert :
    (m : Dict String Inspect) (i d : String) (s : Inspect)
    → there (insert i s m) d ≡ ite (string_dec i d) true (there m d)
unfolding there
there-insert m i d s = rw (there, lookup-insert i d s m) (ground arith)

deleted : (m : Dict String Inspect) (i : String) → there (delete i m) i ≡ false
deleted m i = rw (there-delete m i i) (ground arith)

within-delete :
    (m : Dict String Inspect) (i d : String) → there (delete i m) d ≡ true → there m d ≡ true
within-delete m i d p = ground (arith, there-delete m i d)

there-overwrite :
    (m : Dict String Inspect) (i d : String) (s : Inspect)
    → there m i ≡ true
    → there (insert i s m) d ≡ true
    → there m d ≡ true
there-overwrite m i d s p q = elim (string_dec i d) [
  | yes e ↦ subst (λ x. there m x ≡ true) e p
  | no n ↦ ground (arith, there-insert m i d s)
]

within-touch :
    (c : Client) (i d : String) (f : Inspect → Inspect)
    → there (touch c i f) d ≡ true
    → there c.containers d ≡ true
unfolding there
within-touch c i d f p = elim (Option-cases (lookup i c.containers)) [
  | inl e ↦ ground (arith, p, e)
  | inr (s, e) ↦ there-overwrite c.containers i d (f s) (rw (there, e) refl) (ground (arith, p, e))
]

pub within-remove_by_name :
    (c : Client) (n d : String)
    → there (remove_by_name c n).0.containers d ≡ true
    → there c.containers d ≡ true
unfolding remove_by_name
within-remove_by_name c n d p = elim (Option-cases (lookup n c.names)) [
  | inl e ↦ ground (arith, e)
  | inr (i, e) ↦ ground (arith, e, within-delete c.containers i d)
]

pub within-start :
    (c : Client) (i d : String)
    → there (start c i).0.containers d ≡ true
    → there c.containers d ≡ true
unfolding start
within-start c i d p =
    ground (arith, within-touch c i d (λ s. record s { running = true; status = "running" }))

pub within-stop :
    (b : Bool) (c : Client) (i d : String)
    → there (stop b c i).0.containers d ≡ true
    → there c.containers d ≡ true
unfolding stop
within-stop b c i d p =
    ground (arith, within-touch c i d (λ s. record s { running = false; status = "exited" }))

pub within-remove :
    (b : Bool) (c : Client) (i d : String)
    → there (remove b c i).0.containers d ≡ true
    → there c.containers d ≡ true
unfolding remove
within-remove b c i d p = ground (arith, within-delete c.containers i d)

pub remove-there :
    (b : Bool) (c : Client) (i : String)
    → (remove b c i).1 ≡ none
    → there (remove b c i).0.containers i ≡ false
unfolding remove
remove-there b c i p = ground (arith, deleted c.containers i)

create-containers :
    (c : Client) (s : ContainerSpec) (i : String)
    → (create c s).1 ≡ ok i
    → (create c s).0.containers ≡ insert i (new_container i) c.containers
unfolding create
create-containers c s i p = ground arith

pub create-there :
    (c : Client) (s : ContainerSpec) (i d : String)
    → (create c s).1 ≡ ok i
    → there (create c s).0.containers d ≡ true
    → (d ≡ i) ⊎ (there c.containers d ≡ true)
create-there c s i d p q =
    let q' = subst (λ m. there m d ≡ true) (create-containers c s i p) q in
    elim (string_dec i d) [
      | yes e ↦ inl (sym e)
      | no n ↦ inr (ground (arith, q', there-insert c.containers i d (new_container i)))
    ]

pub create-failed :
    (c : Client) (s : ContainerSpec) (e d : String)
    → (create c s).1 ≡ err e
    → there (create c s).0.containers d ≡ true
    → there c.containers d ≡ true
unfolding create
create-failed c s e d p q = ground arith

-- The fake client, with a clock and scripted probes, is a host that the runtime may rely on: only
-- `create` makes a container, and it makes the one that it names; a removal that reports no error
-- removes; time does not go back.
pub fake_laws : HostLaws fake_host
unfolding pull remove_image
fake_laws = record {
  pull_makes = λ x i w c p. ground arith;
  remove_by_name_makes = λ x n w c p. within-remove_by_name w.client n c p;
  start_makes = λ x i w c p. within-start w.client i c p;
  stop_makes = λ x i w c p. within-stop (cancelled_in x w) w.client i c p;
  remove_makes = λ x i w c p. within-remove (cancelled_in x w) w.client i c p;
  remove_image_makes = λ x i w c p. ground arith;
  ollama_makes = λ x q u t w c p. p;
  probe_makes = λ u w c p. ground arith;
  pause_makes = λ t w c p. p;
  create_failed = λ x s w e p c q. create-failed w.client s e c p q;
  create_made = λ x s w c p d q. create-there w.client s c d p q;
  removed = λ x c w p. remove-there (cancelled_in x w) w.client c p;
  probe_time = λ u w. ground arith;
  pause_time = λ t w p. omega arith;
}
