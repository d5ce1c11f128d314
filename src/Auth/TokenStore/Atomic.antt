-- ===== src/Auth/TokenStore/Atomic.antt =====
-- What the file of a token holds whenever the worker stops.
use inferia_worker.Common.{
  [], Option, none, some, Result, ok, err, String, ◌≡◌, ◌≢◌, ◌⊎◌, inl, inr, refl, sym, ap, subst,
  ◌∙◌,
}
use inferia_worker.Auth.TokenStore.{
  Chars, found, Files, TokenStore, Trace, ends, after, call, stop, abandon, rename_step, close_step,
  chmod_step, write_step, finally, with_temp, write_file_atomic, persist,
}

-- What the store relies on. No call but `rename` changes a file other than the one that it is about.
pub record FilesLaws (fs : Files) : Type 0 where
  pub read :
      (p : String) (w : fs.W) (b : Chars) → fs.content w p ≡ some b → fs.read_file p w ≡ found b
  pub mkdir_keeps : (d p : String) (w : fs.W) → fs.content (fs.mkdir_all d w).0 p ≡ fs.content w p
  pub create_keeps :
      (d p : String) (w : fs.W)
      → (fs.create_temp d w).1 ≢ ok p
      → fs.content (fs.create_temp d w).0 p ≡ fs.content w p
  pub create_empty :
      (d p : String) (w : fs.W)
      → (fs.create_temp d w).1 ≡ ok p
      → fs.content (fs.create_temp d w).0 p ≡ some []
  pub write_keeps :
      (q p : String) (b : Chars) (w : fs.W)
      → q ≢ p
      → fs.content (fs.write q b w).0 p ≡ fs.content w p
  pub write_fills :
      (q : String) (b : Chars) (w : fs.W)
      → fs.content w q ≡ some []
      → (fs.write q b w).1 ≡ none
      → fs.content (fs.write q b w).0 q ≡ some b
  pub chmod_keeps : (q p : String) (w : fs.W) → fs.content (fs.chmod q w).0 p ≡ fs.content w p
  pub close_keeps : (q p : String) (w : fs.W) → fs.content (fs.close q w).0 p ≡ fs.content w p
  pub rename_moves :
      (q p : String) (w : fs.W)
      → (fs.rename q p w).1 ≡ none
      → fs.content (fs.rename q p w).0 p ≡ fs.content w q
  pub rename_failed :
      (q p : String) (w : fs.W)
      → (fs.rename q p w).1 ≢ none
      → fs.content (fs.rename q p w).0 p ≡ fs.content w p
  pub remove_keeps :
      (q p : String) (w : fs.W) → q ≢ p → fs.content (fs.remove q w).0 p ≡ fs.content w p

-- A temporary file never has the name of the store's file.
abbrev pub Apart : Files → String → Type 0
Apart fs path = (d : String) (w : fs.W) → (fs.create_temp d w).1 ≢ ok path

module _ (fs : Files) (path : String) (new : Chars) (old : Option Chars) where
  open fs use {W}

  -- After each call the file holds the old content or the new token; at the end it holds the new
  -- one if there is no error and the old one if there is.
  abbrev pub Safe : W → Trace W → Type 0
  Safe w (ends none) = fs.content w path ≡ some new
  Safe w (ends (some m)) = fs.content w path ≡ old
  Safe w (after v t) = ((fs.content v path ≡ old) ⊎ (fs.content v path ≡ some new)) × Safe v t

module _ (fs : Files) (laws : FilesLaws fs) (path : String) (new : Chars) (old : Option Chars) where
  open fs use {W}

  call-Safe :
      (w : W) (r : W × Option String) (fail : String → W → Trace W) (go : W → Trace W)
      → ((m : String)
          → r.1 ≡ some m
          → (fs.content r.0 path ≡ old) × Safe fs path new old r.0 (fail m r.0))
      → (r.1 ≡ none
          → ((fs.content r.0 path ≡ old) ⊎ (fs.content r.0 path ≡ some new))
            × Safe fs path new old r.0 (go r.0))
      → Safe fs path new old w (call r fail go)
  unfolding call
  call-Safe w (v, some m) fail go f g = (inl (f m refl).0, (f m refl).1)
  call-Safe w (v, none) fail go f g = g refl

  -- A call that leaves the file as it is.
  keeping :
      (w : W) (r : W × Option String) (fail : String → W → Trace W) (go : W → Trace W)
      → fs.content r.0 path ≡ old
      → ((m : String) → Safe fs path new old r.0 (fail m r.0))
      → (r.1 ≡ none → Safe fs path new old r.0 (go r.0))
      → Safe fs path new old w (call r fail go)
  keeping w r fail go k f g = call-Safe w r fail go (λ m e. (k, f m)) (λ e. (inl k, g e))

  abandon-Safe :
      (tmp m : String) (w : W)
      → fs.content w path ≡ old
      → Safe fs path new old w (abandon fs tmp m w)
  unfolding abandon
  abandon-Safe tmp m w e = let k = laws.close_keeps tmp path w ∙ e in (inl k, k)

  rename_step-Safe :
      (tmp : String) (w : W)
      → fs.content w path ≡ old
      → fs.content w tmp ≡ some new
      → Safe fs path new old w (rename_step fs path tmp w)
  unfolding rename_step
  rename_step-Safe tmp w e f =
      call-Safe w (fs.rename tmp path w) (stop fs) (λ v. ends none)
        (λ m s. let k = laws.rename_failed tmp path w (λ z. cc (s, z)) ∙ e in (k, k))
        (λ s. let k = laws.rename_moves tmp path w s ∙ f in (inr k, k))

  close_step-Safe :
      (tmp : String) (w : W)
      → fs.content w path ≡ old
      → fs.content w tmp ≡ some new
      → Safe fs path new old w (close_step fs path tmp w)
  unfolding close_step
  close_step-Safe tmp w e f =
      let k = laws.close_keeps tmp path w ∙ e in
      keeping w (fs.close tmp w) (stop fs) (rename_step fs path tmp) k (λ m. k)
        (λ s. rename_step-Safe tmp (fs.close tmp w).0 k (laws.close_keeps tmp tmp w ∙ f))

  chmod_step-Safe :
      (tmp : String) (w : W)
      → fs.content w path ≡ old
      → fs.content w tmp ≡ some new
      → Safe fs path new old w (chmod_step fs path tmp w)
  unfolding chmod_step
  chmod_step-Safe tmp w e f =
      let k = laws.chmod_keeps tmp path w ∙ e in
      keeping w (fs.chmod tmp w) (abandon fs tmp) (close_step fs path tmp) k
        (λ m. abandon-Safe tmp m (fs.chmod tmp w).0 k)
        (λ s. close_step-Safe tmp (fs.chmod tmp w).0 k (laws.chmod_keeps tmp tmp w ∙ f))

  write_step-Safe :
      (tmp : String) (w : W)
      → tmp ≢ path
      → fs.content w path ≡ old
      → fs.content w tmp ≡ some []
      → Safe fs path new old w (write_step fs path new tmp w)
  unfolding write_step
  write_step-Safe tmp w n e f =
      let k = laws.write_keeps tmp path new w n ∙ e in
      keeping w (fs.write tmp new w) (abandon fs tmp) (chmod_step fs path tmp) k
        (λ m. abandon-Safe tmp m (fs.write tmp new w).0 k)
        (λ s. chmod_step-Safe tmp (fs.write tmp new w).0 k (laws.write_fills tmp new w f s))

  finally-Safe :
      (tmp : String) (w : W) (t : Trace W)
      → tmp ≢ path
      → Safe fs path new old w t
      → Safe fs path new old w (finally fs tmp w t)
  unfolding finally
  finally-Safe tmp w (ends none) n h = let k = laws.remove_keeps tmp path w n ∙ h in (inr k, k)
  finally-Safe tmp w (ends (some m)) n h = let k = laws.remove_keeps tmp path w n ∙ h in (inl k, k)
  finally-Safe tmp w (after v t) n h = (h.0, finally-Safe tmp v t n h.1)

  with_temp-Safe :
      (w : W) (r : W × Result String)
      → ((tmp : String) → r.1 ≡ ok tmp → (tmp ≢ path) × (fs.content r.0 tmp ≡ some []))
      → fs.content r.0 path ≡ old
      → Safe fs path new old w (with_temp fs path new r)
  unfolding with_temp
  with_temp-Safe w (v, err m) made k = (inl k, k)
  with_temp-Safe w (v, ok tmp) made k =
      let (n, f) = made tmp refl in (inl k, finally-Safe tmp v _ n (write_step-Safe tmp v n k f))

  write_file_atomic-Safe :
      (w : W)
      → Apart fs path
      → fs.content w path ≡ old
      → Safe fs path new old w (write_file_atomic fs path new w)
  unfolding write_file_atomic
  write_file_atomic-Safe w apart e =
      let d = fs.dir path in
      with_temp-Safe w (fs.create_temp d w)
        (λ tmp s. (λ z. apart d w (s ∙ ap ok z), laws.create_empty d tmp w s))
        (laws.create_keeps d path w (apart d w) ∙ e)

  pub persist_path-Safe :
      (s : TokenStore) (w : W)
      → s.path ≡ path
      → Apart fs path
      → fs.content w path ≡ old
      → Safe fs path new old w (persist fs s new w)
  unfolding persist
  persist_path-Safe s w same apart e =
      let k = laws.mkdir_keeps (fs.dir s.path) path w ∙ e in
      keeping w (fs.mkdir_all (fs.dir s.path) w) (stop fs) (write_file_atomic fs s.path new) k
        (λ m. k)
        (λ z.
          subst
            (λ p.
              Safe fs path new old (fs.mkdir_all (fs.dir s.path) w).0
                (write_file_atomic fs p new (fs.mkdir_all (fs.dir s.path) w).0))
            (sym same) (write_file_atomic-Safe (fs.mkdir_all (fs.dir s.path) w).0 apart k))
