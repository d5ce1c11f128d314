-- ===== src/Shellbridge/Host.antt =====
-- internal/shellbridge/host_backend.go: a shell on the host, in a privileged container that enters
-- the namespaces of PID 1. The Docker daemon is a parameter; `W` is its state. There is a client,
-- and a container id stands for the hijacked connection that Spawn returns.
pub mod Leak
use inferia_worker.Common.{
  ℕ, String, List, [], ◌∷◌, ◌++◌, Bool, true, false, ◌||◌, Option, none, some, Result, ok, err, ite,
  string_dec, if◌then◌else◌, ◌&◌, ◌≡◌, ◌⊎◌,
}
use inferia_worker.Config.Values.{Getenv}

-- The fields of ShellSessionConfig that a spawn reads.
pub record ShellConfig : Type 0 where
  pub shell : String
  pub user : String
  pub deployment : String
  pub container : String
  pub initial_cols : ℕ
  pub initial_rows : ℕ

abbrev pub default_host_shell_image : String
default_host_shell_image = "ubuntu:22.04"

-- `strings.TrimSpace` of the environment is the caller's.
unfoldable pub host_shell_image : String → String
host_shell_image v = ite (string_dec v "") default_host_shell_image v

abbrev or_bash : String → String
or_bash shell = ite (string_dec shell "") "/bin/bash" shell

unfoldable pub build_nsenter_cmd : ShellConfig → List String
build_nsenter_cmd cfg =
    let base = "nsenter" ∷ "-t" ∷ "1" ∷ "-m" ∷ "-u" ∷ "-i" ∷ "-n" ∷ "-p" ∷ "--" ∷ [] in
    let as_root = base ++ or_bash cfg.shell ∷ "-l" ∷ [] in
    let as_user = base ++ "su" ∷ "-" ∷ cfg.user ∷ "-s" ∷ or_bash cfg.shell ∷ [] in
    ite (string_dec cfg.user "") as_root (ite (string_dec cfg.user "root") as_root as_user)

-- Config and HostConfig of the SDK, the fields that are set.
pub record HostContainer : Type 0 where
  pub image : String
  pub cmd : List String
  pub open_stdin : Bool
  pub attach_stdin : Bool
  pub attach_stdout : Bool
  pub attach_stderr : Bool
  pub tty : Bool
  pub env : List String
  pub privileged : Bool
  pub pid_mode : String
  pub network_mode : String
  pub ipc_mode : String
  pub uts_mode : String
  pub auto_remove : Bool
  pub security_opt : List String

unfoldable pub build_host_container_configs : ShellConfig → String → HostContainer
unfolding build_nsenter_cmd
build_host_container_configs cfg img = record {
  image = img;
  cmd = build_nsenter_cmd cfg;
  open_stdin = true;
  attach_stdin = true;
  attach_stdout = true;
  attach_stderr = true;
  tty = true;
  env = "TERM=xterm-256color" ∷ [];
  privileged = true;
  pid_mode = "host";
  network_mode = "host";
  ipc_mode = "host";
  uts_mode = "host";
  auto_remove = true;
  security_opt = "apparmor=unconfined" ∷ "seccomp=unconfined" ∷ [];
}

pub record Daemon : Type 1 where
  pub W : Type 0
  -- whether a container of this id exists
  pub present : W → String → Bool
  -- the tags of each image
  pub image_list : W → W × Result (List (List String))
  pub image_pull : String → W → W × Option String
  -- the rest of the progress stream of a pull
  pub drain : W → W × Option String
  pub create : HostContainer → W → W × Result String
  pub attach : String → W → W × Option String
  pub start : String → W → W × Option String
  pub detach : W → W
  pub remove : String → W → W × Option String

-- No container of `w'` is missing from `w`.
abbrev pub Within : (d : Daemon) → d.W → d.W → Type 0
Within d w w' = (c : String) → d.present w' c ≡ true → d.present w c ≡ true

pub record DaemonLaws (d : Daemon) : Type 0 where
  pub image_list_makes : (w : d.W) → Within d w (d.image_list w).0
  pub image_pull_makes : (i : String) (w : d.W) → Within d w (d.image_pull i w).0
  pub drain_makes : (w : d.W) → Within d w (d.drain w).0
  pub attach_makes : (c : String) (w : d.W) → Within d w (d.attach c w).0
  pub start_makes : (c : String) (w : d.W) → Within d w (d.start c w).0
  pub detach_makes : (w : d.W) → Within d w (d.detach w)
  pub remove_makes : (c : String) (w : d.W) → Within d w (d.remove c w).0
  pub create_failed :
      (s : HostContainer) (w : d.W) (e : String)
      → (d.create s w).1 ≡ err e
      → Within d w (d.create s w).0
  pub create_made :
      (s : HostContainer) (w : d.W) (c : String)
      → (d.create s w).1 ≡ ok c
      → (b : String) → d.present (d.create s w).0 b ≡ true
      → (b ≡ c) ⊎ (d.present w b ≡ true)
  pub removed :
      (c : String) (w : d.W) → (d.remove c w).1 ≡ none → d.present (d.remove c w).0 c ≡ false

unfoldable pub has_tag : String → List String → Bool
has_tag i [] = false
has_tag i (t ∷ ts) = let rest = has_tag i ts in ite (string_dec t i) true rest

unfoldable pub any_has_tag : String → List (List String) → Bool
unfolding has_tag
any_has_tag i [] = false
any_has_tag i (s ∷ ss) = has_tag i s || any_has_tag i ss

module _ (d : Daemon) where
  open d use {W}

  unfoldable pub drained : W × Option String → W × Option String
  drained (w, none) = (w, none)
  drained (w, some m) = (w, some ("drain pull: " & m))

  unfoldable pub pulled : String → W × Option String → W × Option String
  unfolding drained
  pulled i (w, some m) = (w, some ("pull " & i & ": " & m))
  pulled i (w, none) = drained (d.drain w)

  unfoldable pub listed : String → W × Result (List (List String)) → W × Option String
  unfolding any_has_tag pulled
  listed i (w, err m) = pulled i (d.image_pull i w)
  listed i (w, ok tags) = if any_has_tag i tags then (w, none) else pulled i (d.image_pull i w)

  unfoldable pub ensure_image : String → W → W × Option String
  unfolding listed
  ensure_image i w = listed i (d.image_list w)

  -- The container's id, or an error, after which the container is removed.
  unfoldable pub start_step : String → W × Option String → W × Result String
  start_step c (w, none) = (w, ok c)
  start_step c (w, some m) = ((d.remove c (d.detach w)).0, err ("host shell start: " & m))

  unfoldable pub attach_step : String → W × Option String → W × Result String
  unfolding start_step
  attach_step c (w, some m) = ((d.remove c w).0, err ("host shell attach: " & m))
  attach_step c (w, none) = start_step c (d.start c w)

  unfoldable pub create_step : W × Result String → W × Result String
  unfolding attach_step
  create_step (w, err m) = (w, err ("host shell create: " & m))
  create_step (w, ok c) = attach_step c (d.attach c w)

  unfoldable pub image_step : ShellConfig → String → W × Option String → W × Result String
  unfolding build_host_container_configs create_step
  image_step cfg i (w, some m) = (w, err ("host shell image: " & m))
  image_step cfg i (w, none) = create_step (d.create (build_host_container_configs cfg i) w)

  unfoldable pub spawn : String → ShellConfig → W → W × Result String
  unfolding ensure_image image_step
  spawn i cfg w = image_step cfg i (ensure_image i w)
