-- ===== src/Auth/TokenStore/Saved.antt =====
-- Set as a whole: what is saved, and what a store that is opened again has.
use inferia_worker.Common.{Option, none, some, ok, String, ◌≡◌, refl}
use inferia_worker.Auth.TokenStore.{
  Chars, Files, TokenStore, trim_space, Trace, ends, after, error_of, opened, new_token_store,
  persist, set,
}
use inferia_worker.Auth.TokenStore.Atomic.{FilesLaws, Apart, Safe, persist_path-Safe}

-- The state of the file system in which an operation ends.
abbrev pub final : {W : Type 0} → W → Trace W → W
final w (ends e) = w
final w (after v t) = final v t

final-Safe :
    (fs : Files) (path : String) (new : Chars) (old : Option Chars) (w : fs.W) (t : Trace fs.W)
    → Safe fs path new old w t
    → error_of t ≡ none
    → fs.content (final w t) path ≡ some new
unfolding error_of
final-Safe fs path new old w (ends none) h e = h
final-Safe fs path new old w (ends (some m)) h e = cc e
final-Safe fs path new old w (after v t) h e = final-Safe fs path new old v t h.1 e

reopened :
    (fs : Files) (laws : FilesLaws fs) (path : String) (b : Chars) (w : fs.W)
    → fs.content w path ≡ some b
    → new_token_store fs path w ≡ ok (record { path = path; tok = trim_space b })
unfolding new_token_store opened
reopened fs laws path b w e = rw (laws.read path w b e) refl

set_done :
    (fs : Files) (s : TokenStore) (token : Chars) (w : fs.W)
    → error_of (persist fs s token w) ≡ none
    → (set fs s token w).tok ≡ token
unfolding set
set_done fs s token w e = rw (set, e) refl

persisted :
    (fs : Files) (s : TokenStore) (token : Chars) (w : fs.W)
    → FilesLaws fs
    → Apart fs s.path
    → Safe fs s.path token (fs.content w s.path) w (persist fs s token w)
persisted fs s token w laws apart =
    persist_path-Safe fs laws s.path token (fs.content w s.path) s w refl apart refl

-- Whenever the worker stops during Set, between any two calls of the file system, the file holds
-- either what it held before or the whole new token. When Set returns an error the file holds what it
-- held before. When it returns none, the file and the store hold the new token, and a store that is
-- opened on the file has the token without the blanks around it.
pub set_lem :
    (fs : Files) (s : TokenStore) (token : Chars) (w : fs.W)
    → FilesLaws fs
    → Apart fs s.path
    → Safe fs s.path token (fs.content w s.path) w (persist fs s token w)
      × (error_of (persist fs s token w) ≡ none
          → ((set fs s token w).tok ≡ token)
            × (new_token_store fs s.path (final w (persist fs s token w))
                ≡ ok (record { path = s.path; tok = trim_space token })))
set_lem fs s token w laws apart =
    let safe = persisted fs s token w laws apart in
    (
      safe,
      λ e. (
        set_done fs s token w e,
        reopened fs laws s.path token _
            (final-Safe fs s.path token (fs.content w s.path) w (persist fs s token w) safe e),
      ),
    )
