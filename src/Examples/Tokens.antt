-- ===== src/Examples/Tokens.antt =====
-- Runs of internal/auth.
use inferia_worker.Common.{
  String, [], ◌∷◌, false, Option, none, some, ok, ◌≡◌, ◌≢◌, ◌↔◌, ◌⊎◌, refl, codes, arith, Dict,
  lookup, insert, delete, string_key, insert-other, insert-same, lookup-insert, lookup-delete,
}
use inferia_worker.Auth.Bearer.{has_prefix, next, inference_token_middleware}
use inferia_worker.Auth.Bearer.Admission.{Carries, inference_token_middleware_iff}
use inferia_worker.Auth.TokenStore.{
  Chars, Read, found, missing, removed, Files, TokenStore, trim_space, error_of, new_token_store,
  persist, set,
}
use inferia_worker.Auth.TokenStore.Atomic.{FilesLaws, Apart, Safe}
use inferia_worker.Auth.TokenStore.Saved.{final, set_lem}

inference_token_middleware_iff_example :
    (inference_token_middleware (codes "tok") (codes "/v1/models") (codes "bearer tok") ≡ next) ↔ (
      (has_prefix (codes "/v1/models") (codes "/v1/") ≡ false)
      ⊎ Carries (codes "bearer tok") (codes "tok"))
inference_token_middleware_iff_example =
    inference_token_middleware_iff (codes "tok") (codes "/v1/models") (codes "bearer tok")

-- A disk in memory, on which every call works.
abbrev Disk : Type 0
Disk = Dict String Chars

abbrev temp : String
temp = ".token-1"

abbrev moved : Option Chars → String → String → Disk → Disk × Option String
moved none q p w = (w, some "no such file")
moved (some b) q p w = (insert p b (delete q w), none)

abbrev read_found : Option Chars → Read
read_found none = missing
read_found (some b) = found b

abbrev disk : Files
disk = record {
  W = Disk;
  content = λ w p. lookup p w;
  dir = λ p. "d";
  read_file = λ p w. read_found (lookup p w);
  mkdir_all = λ d w. (w, none);
  create_temp = λ d w. (insert temp [] w, ok temp);
  write = λ q b w. (insert q b w, none);
  chmod = λ q w. (w, none);
  close = λ q w. (w, none);
  rename = λ q p w. moved (lookup q w) q p w;
  remove = λ q w. (delete q w, removed);
}

moved_there :
    (o : Option Chars) (q p : String) (w : Disk)
    → (moved o q p w).1 ≡ none
    → lookup p (moved o q p w).0 ≡ o
moved_there none q p w e = cc e
moved_there (some b) q p w e = insert-same p b (delete q w)

not_moved :
    (o : Option Chars) (q p : String) (w : Disk)
    → (moved o q p w).1 ≢ none
    → lookup p (moved o q p w).0 ≡ lookup p w
not_moved none q p w n = refl
not_moved (some b) q p w n = absurd (n refl)

disk_laws : FilesLaws disk
disk_laws = record {
  read = λ p w b e. rw e refl;
  mkdir_keeps = λ d p w. refl;
  create_keeps = λ d p w n. insert-other temp p [] w (λ e. n (cc e));
  create_empty = λ d p w e. ground (arith, lookup-insert temp p [] w, e);
  write_keeps = λ q p b w n. insert-other q p b w n;
  write_fills = λ q b w f e. insert-same q b w;
  chmod_keeps = λ q p w. refl;
  close_keeps = λ q p w. refl;
  rename_moves = λ q p w e. moved_there (lookup q w) q p w e;
  rename_failed = λ q p w n. not_moved (lookup q w) q p w n;
  remove_keeps = λ q p w n. ground (arith, n, lookup-delete q p w);
}

-- The store has a token already.
abbrev store : TokenStore
store = record { path = "token"; tok = codes "old" }

abbrev start : Disk
start = ("token", codes "old") ∷ []

disk-Apart : Apart disk "token"
disk-Apart d w e = cc e

set_lem_example :
    Safe disk "token"
      (codes "new")
      (lookup "token" start)
      start
      (persist disk store (codes "new") start)
    × (error_of (persist disk store (codes "new") start) ≡ none
        → ((set disk store (codes "new") start).tok ≡ codes "new")
          × (new_token_store disk "token" (final start (persist disk store (codes "new") start))
              ≡ ok (record { path = "token"; tok = trim_space (codes "new") })))
set_lem_example = set_lem disk store (codes "new") start disk_laws disk-Apart
