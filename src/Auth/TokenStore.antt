-- ===== src/Auth/TokenStore.antt =====
-- internal/auth/store.go: the worker's token in memory and in a file. The file system is a
-- parameter. A token is given by its characters.
pub mod Atomic
pub mod Saved
use inferia_worker.Common.{
  ℕ, List, [], ◌∷◌, Bool, true, false, ◌&&◌, Option, none, some, Result, ok, err, String, ◌≡◌, ◌≢◌,
  if◌then◌else◌, is_space,
}

abbrev pub Chars : Type 0
Chars = List ℕ

pub data Read : Type 0 where
  found : Chars → Read
  missing : Read
  failed : String → Read

pub data Removal : Type 0 where
  removed absent : Removal
  refused : String → Removal

-- What os and path/filepath do: `content` is what a file holds.
pub record Files : Type 1 where
  pub W : Type 0
  pub content : W → String → Option Chars
  pub dir : String → String
  pub read_file : String → W → Read
  pub mkdir_all : String → W → W × Option String
  pub create_temp : String → W → W × Result String
  pub write : String → Chars → W → W × Option String
  pub chmod : String → W → W × Option String
  pub close : String → W → W × Option String
  pub rename : String → String → W → W × Option String
  pub remove : String → W → W × Removal

pub record TokenStore : Type 0 where
  pub path : String
  pub tok : Chars

-- strings.TrimSpace.
unfoldable pub trim_left : Chars → Chars
unfolding is_space
trim_left [] = []
trim_left (c ∷ cs) = let rest = trim_left cs in if is_space c then rest else c ∷ cs

is_empty : Chars → Bool
is_empty [] = true
is_empty (c ∷ cs) = false

unfoldable pub trim_right : Chars → Chars
unfolding is_space is_empty
trim_right [] = []
trim_right (c ∷ cs) =
    let rest = trim_right cs in if is_space c && is_empty rest then [] else c ∷ rest

unfoldable pub trim_space : Chars → Chars
unfolding trim_left trim_right
trim_space s = trim_right (trim_left s)

unfoldable pub get : TokenStore → Chars
get s = s.tok

-- The states of the file system after each call of an operation, and the operation's error.
pub data Trace (W : Type 0) : Type 0 where
  ends : Option String → Trace W
  after : W → Trace W → Trace W

module _ {W : Type 0} where
  unfoldable pub error_of : Trace W → Option String
  error_of (ends e) = e
  error_of (after w t) = error_of t

  -- A call: with an error the one, and otherwise the other.
  unfoldable pub call : W × Option String → (String → W → Trace W) → (W → Trace W) → Trace W
  call (w, some m) fail go = after w (fail m w)
  call (w, none) fail go = after w (go w)

module _ (fs : Files) where
  open fs use {W}

  unfoldable pub opened : String → Read → Result TokenStore
  unfolding trim_space
  opened path (found b) = ok (record { path = path; tok = trim_space b })
  opened path missing = ok (record { path = path; tok = [] })
  opened path (failed m) = err m

  unfoldable pub new_token_store : String → W → Result TokenStore
  unfolding opened
  new_token_store path w = opened path (fs.read_file path w)

  -- The error is returned.
  abbrev pub stop : String → W → Trace W
  stop m w = ends (some m)

  -- The file is closed, and the error is returned.
  unfoldable pub abandon : String → String → W → Trace W
  abandon tmp m w = after (fs.close tmp w).0 (ends (some m))

  unfoldable pub rename_step : String → String → W → Trace W
  unfolding call
  rename_step path tmp w = call (fs.rename tmp path w) stop (λ v. ends none)

  unfoldable pub close_step : String → String → W → Trace W
  unfolding call rename_step
  close_step path tmp w = call (fs.close tmp w) stop (rename_step path tmp)

  unfoldable pub chmod_step : String → String → W → Trace W
  unfolding call abandon close_step
  chmod_step path tmp w = call (fs.chmod tmp w) (abandon tmp) (close_step path tmp)

  unfoldable pub write_step : String → Chars → String → W → Trace W
  unfolding call abandon chmod_step
  write_step path data_ tmp w = call (fs.write tmp data_ w) (abandon tmp) (chmod_step path tmp)

  -- The deferred `os.Remove(tmp)`.
  unfoldable pub finally : String → W → Trace W → Trace W
  finally tmp w (ends e) = after (fs.remove tmp w).0 (ends e)
  finally tmp w (after v t) = after v (finally tmp v t)

  unfoldable pub with_temp : String → Chars → W × Result String → Trace W
  unfolding finally write_step
  with_temp path data_ (w, err m) = after w (ends (some m))
  with_temp path data_ (w, ok tmp) = after w (finally tmp w (write_step path data_ tmp w))

  unfoldable pub write_file_atomic : String → Chars → W → Trace W
  unfolding with_temp
  write_file_atomic path data_ w = with_temp path data_ (fs.create_temp (fs.dir path) w)

  -- What Set does to the files.
  unfoldable pub persist : TokenStore → Chars → W → Trace W
  unfolding call write_file_atomic
  persist s token w = call (fs.mkdir_all (fs.dir s.path) w) stop (write_file_atomic s.path token)

  -- The store after Set.
  unfoldable pub set : TokenStore → Chars → W → TokenStore
  unfolding persist error_of
  set s token w = elim (error_of (persist s token w)) [
    | none ↦ record s { tok = token }
    | some m ↦ s
  ]

  abbrev removal_error : Removal → Option String
  removal_error removed = none
  removal_error absent = none
  removal_error (refused m) = some m

  unfoldable pub clear : TokenStore → W → TokenStore × W × Option String
  clear s w = let (v, r) = fs.remove s.path w in (record s { tok = [] }, v, removal_error r)
