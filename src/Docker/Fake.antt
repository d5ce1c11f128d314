-- ===== src/Docker/Fake.antt =====
-- The in-memory client of internal/runtime/dockerclient/fake/fake.go: the lists of the calls made, the
-- containers, the names in use, and an error for each method that, when set, the method returns. The
-- Bool of Stop and Remove says whether their context is cancelled.
pub mod AsHost
use inferia_worker.Common.{
  ℕ, ◌+◌, String, List, [], ◌∷◌, ◌++◌, Bool, true, false, Option, none, some, Result, ok, err, ite,
  string_dec, if◌then◌else◌, ◌&◌, Dict, lookup, insert, delete, string_key,
}
use inferia_worker.Docker.Spec.{ContainerSpec}

pub record Inspect : Type 0 where
  pub id : String
  pub running : Bool
  pub status : String
  pub exit_code : ℕ

-- The error injectors.
pub record Errors : Type 0 where
  pub ping_err : Option String
  pub ensure_network_err : Option String
  pub pull_err : Option String
  pub create_err : Option String
  pub start_err : Option String
  pub stop_err : Option String
  pub remove_err : Option String
  pub remove_image_err : Option String
  pub remove_by_name_err : Option String
  pub inspect_err : Option String
  pub logs_err : Option String

pub record Client : Type 0 where
  pub pinged : ℕ
  pub networks_created : List String
  pub pulled : List String
  pub pull_progress_lines : List String
  pub images_removed : List String
  pub created : List ContainerSpec
  pub started : List String
  pub stopped : List String
  pub removed : List String
  pub removed_by_name : List String
  pub containers : Dict String Inspect
  pub names : Dict String String
  pub next_id : ℕ
  pub errors : Errors
  pub fake_logs : String

unfoldable pub new : Client
new = record {
  pinged = 0;
  networks_created = [];
  pulled = [];
  pull_progress_lines = [];
  images_removed = [];
  created = [];
  started = [];
  stopped = [];
  removed = [];
  removed_by_name = [];
  containers = [];
  names = [];
  next_id = 0;
  errors = record {
    ping_err = none;
    ensure_network_err = none;
    pull_err = none;
    create_err = none;
    start_err = none;
    stop_err = none;
    remove_err = none;
    remove_image_err = none;
    remove_by_name_err = none;
    inspect_err = none;
    logs_err = none;
  };
  fake_logs = "";
}

-- The call's injected error, or else the state `done` and no error.
abbrev unless_injected : Client → Option String → Client → Client × Option String
unless_injected c none done = (done, none)
unless_injected c (some e) done = (c, some e)

-- `s.Running`, `s.Status` of a container that is there.
abbrev pub touch : Client → String → (Inspect → Inspect) → Dict String Inspect
touch c id f = elim (lookup id c.containers) [
  | none ↦ c.containers
  | some s ↦ insert id (f s) c.containers
]

unfoldable pub ping : Client → Client × Option String
ping c = (record c { pinged = c.pinged + 1 }, c.errors.ping_err)

unfoldable pub ensure_network : Client → String → Client × Option String
ensure_network c name =
    unless_injected c c.errors.ensure_network_err
      (record c { networks_created = c.networks_created ++ name ∷ [] })

unfoldable pub pull : Client → String → Client × List String × Option String
pull c image = elim c.errors.pull_err [
  | some e ↦ (c, [], some e)
  | none ↦ (record c { pulled = c.pulled ++ image ∷ [] }, c.pull_progress_lines, none)
]

-- The text of the conflict, with the name in quotes.
abbrev conflict : String → String
conflict name =
    "Error response from daemon: Conflict. The container name \"/" & name & "\" is already in use"

abbrev pub new_container : String → Inspect
new_container id = record { id = id; running = false; status = "created"; exit_code = 0 }

abbrev created_as : Client → ContainerSpec → Client × Result String
created_as c spec =
    let id = "fake-id-" & spec.name in
    (
      record c {
        next_id = c.next_id + 1;
        created = c.created ++ spec ∷ [];
        containers = insert id (new_container id) c.containers;
        names = ite (string_dec spec.name "") c.names (insert spec.name id c.names);
      },
      ok id,
    )

unfoldable pub create : Client → ContainerSpec → Client × Result String
create c spec = elim c.errors.create_err [
  | some e ↦ (c, err e)
  | none ↦ ite (string_dec spec.name "") (created_as c spec) (elim (lookup spec.name c.names) [
    | some id ↦ (c, err (conflict spec.name))
    | none ↦ created_as c spec
  ])
]

unfoldable pub start : Client → String → Client × Option String
start c id = unless_injected c c.errors.start_err (record c {
  started = c.started ++ id ∷ [];
  containers = touch c id (λ s. record s { running = true; status = "running" });
})

-- A cancelled context fails the call.
abbrev unless_cancelled : Bool → Client → Client → Client × Option String
unless_cancelled cancelled c done = if cancelled then (c, some "context canceled") else (done, none)

unfoldable pub stop : Bool → Client → String → Client × Option String
stop cancelled c id = elim c.errors.stop_err [
  | some e ↦ (c, some e)
  | none ↦ unless_cancelled cancelled c (record c {
    stopped = c.stopped ++ id ∷ [];
    containers = touch c id (λ s. record s { running = false; status = "exited" });
  })
]

-- Every name of the container goes.
unfoldable pub forget_name : String → Dict String String → Dict String String
forget_name id [] = []
forget_name id ((n, cid) ∷ m) =
    let rest = forget_name id m in ite (string_dec cid id) rest ((n, cid) ∷ rest)

unfoldable pub remove : Bool → Client → String → Client × Option String
unfolding forget_name
remove cancelled c id = elim c.errors.remove_err [
  | some e ↦ (c, some e)
  | none ↦ unless_cancelled cancelled c (record c {
    removed = c.removed ++ id ∷ [];
    containers = delete id c.containers;
    names = forget_name id c.names;
  })
]

unfoldable pub remove_image : Client → String → Client × Option String
remove_image c image =
    unless_injected c c.errors.remove_image_err
      (record c { images_removed = c.images_removed ++ image ∷ [] })

-- A missing container is not an error.
unfoldable pub remove_by_name : Client → String → Client × Option String
remove_by_name c name = unless_injected c c.errors.remove_by_name_err (
    let c1 = record c { removed_by_name = c.removed_by_name ++ name ∷ [] } in
    elim (lookup name c.names) [
      | none ↦ c1
      | some id ↦ record c1 { containers = delete id c.containers; names = delete name c.names }
    ])

unfoldable pub inspect : Client → String → Result Inspect
inspect c id = elim c.errors.inspect_err [
  | some e ↦ err e
  | none ↦ elim (lookup id c.containers) [ none ↦ err "not found" | some s ↦ ok s ]
]

unfoldable pub logs : Client → String → ℕ → Result String
logs c id lines = elim c.errors.logs_err [ some e ↦ err e | none ↦ ok c.fake_logs ]

unfoldable pub mark_exited : Client → String → ℕ → Client
mark_exited c id code = record c {
  containers = touch c id (λ s. record s { running = false; status = "exited"; exit_code = code });
}
