-- ===== src/Shellbridge/Host/Leak.antt =====
-- What the start of a host shell leaves.
use inferia_worker.Common.{
  Option-cases, ap, ◌∙◌, ◌&◌, String, List, Bool, true, false, Option, none, some, Result, ok, err,
  ◌≡◌, refl, ◌⊎◌, inl, inr, ⊎_map, if◌then◌else◌,
}
use inferia_worker.Shellbridge.Host.{
  ShellConfig, Daemon, Within, DaemonLaws, any_has_tag, build_host_container_configs, drained,
  pulled, listed, ensure_image, start_step, attach_step, create_step, image_step, spawn,
}

module _ (d : Daemon) (laws : DaemonLaws d) where
  open d use {W}

  through : (u v w : W) → Within d u v → Within d v w → Within d u w
  through u v w f g c p = f c (g c p)

  drained-Within : (u : W) (r : W × Option String) → Within d u r.0 → Within d u (drained d r).0
  unfolding drained
  drained-Within u (w, none) h = h
  drained-Within u (w, some m) h = h

  pulled-Within :
      (u : W) (i : String) (r : W × Option String) → Within d u r.0 → Within d u (pulled d i r).0
  unfolding pulled
  pulled-Within u i (w, some m) h = h
  pulled-Within u i (w, none) h =
      drained-Within u (d.drain w) (through u w (d.drain w).0 h (laws.drain_makes w))

  listed-Within :
      (u : W) (i : String) (r : W × Result (List (List String)))
      → Within d u r.0
      → Within d u (listed d i r).0
  unfolding listed
  listed-Within u i (w, err m) h =
      pulled-Within u i (d.image_pull i w)
        (through u w (d.image_pull i w).0 h (laws.image_pull_makes i w))
  listed-Within u i (w, ok tags) h = go (any_has_tag i tags)
    where
      go : (b : Bool) → Within d u (if b then (w, none) else pulled d i (d.image_pull i w)).0
      go true = h
      go false =
          pulled-Within u i (d.image_pull i w)
            (through u w (d.image_pull i w).0 h (laws.image_pull_makes i w))

  ensure_image-Within : (i : String) (w : W) → Within d w (ensure_image d i w).0
  unfolding ensure_image
  ensure_image-Within i w = listed-Within w i (d.image_list w) (laws.image_list_makes w)

  -- Every container of `v` is one of `u` or the new one.
  abbrev Plus : W → String → W → Type 0
  Plus u c v = (b : String) → d.present v b ≡ true → (b ≡ c) ⊎ (d.present u b ≡ true)

  Plus-through : (u v w : W) (c : String) → Plus u c v → Within d v w → Plus u c w
  Plus-through u v w c f g b p = f b (g b p)

  -- The last call was the removal of the container `c`, which the daemon reported as failed.
  pub RemovalFailed : W → String → Type 0
  RemovalFailed v c = (w : W) × (m : String) × (d.remove c w ≡ (v, some m))

  -- What a spawn leaves: with an error nothing new but a container whose removal has just failed,
  -- and otherwise at most the container it names.
  pub Leaves : W → W × Result String → Type 0
  Leaves u (v, err m) =
      (b : String) → d.present v b ≡ true → (d.present u b ≡ true) ⊎ RemovalFailed v b
  Leaves u (v, ok c) = Plus u c v

  remove-Leaves : (u w : W) (c m : String) → Plus u c w → Leaves u ((d.remove c w).0, err m)
  unfolding Leaves RemovalFailed
  remove-Leaves u w c m f b p = go (f b (laws.remove_makes c w b p)) (Option-cases (d.remove c w).1)
    where
      go :
          (b ≡ c) ⊎ (d.present u b ≡ true)
          → ((d.remove c w).1 ≡ none) ⊎ ((x : String) × ((d.remove c w).1 ≡ some x))
          → (d.present u b ≡ true)
            ⊎ ((v : W) × (x : String) × (d.remove b v ≡ ((d.remove c w).0, some x)))
      go (inr q) _ = inl q
      go (inl e) (inl done) = inl (cc (e, p, laws.removed c w done))
      go (inl e) (inr (x, failed)) =
          inr (w, x, ap (λ z. d.remove z w) e ∙ ap (λ r. ((d.remove c w).0, r)) failed)

  start_step-Leaves :
      (u : W) (c : String) (r : W × Option String) → Plus u c r.0 → Leaves u (start_step d c r)
  unfolding start_step Leaves
  start_step-Leaves u c (w, none) h = h
  start_step-Leaves u c (w, some m) h =
      remove-Leaves u (d.detach w) c ("host shell start: " & m)
        (Plus-through u w (d.detach w) c h (laws.detach_makes w))

  attach_step-Leaves :
      (u : W) (c : String) (r : W × Option String) → Plus u c r.0 → Leaves u (attach_step d c r)
  unfolding attach_step Leaves
  attach_step-Leaves u c (w, some m) h = remove-Leaves u w c ("host shell attach: " & m) h
  attach_step-Leaves u c (w, none) h =
      start_step-Leaves u c (d.start c w)
        (Plus-through u w (d.start c w).0 c h (laws.start_makes c w))

  create_step-Leaves :
      (u : W) (r : W × Result String)
      → ((m : String) → r.1 ≡ err m → Within d u r.0)
      → ((c : String) → r.1 ≡ ok c → Plus u c r.0)
      → Leaves u (create_step d r)
  unfolding create_step Leaves
  create_step-Leaves u (w, err m) f g = λ b p. inl (f m refl b p)
  create_step-Leaves u (w, ok c) f g =
      attach_step-Leaves u c (d.attach c w)
        (Plus-through u w (d.attach c w).0 c (g c refl) (laws.attach_makes c w))

  image_step-Leaves :
      (u : W) (cfg : ShellConfig) (i : String) (r : W × Option String)
      → Within d u r.0
      → Leaves u (image_step d cfg i r)
  unfolding image_step Leaves
  image_step-Leaves u cfg i (w, some m) h = λ b p. inl (h b p)
  image_step-Leaves u cfg i (w, none) h =
      let s = build_host_container_configs cfg i in
      create_step-Leaves u (d.create s w)
        (λ m e. through u w (d.create s w).0 h (laws.create_failed s w m e))
        (λ c e b p. ⊎_map (λ z. z) (h b) (laws.create_made s w c e b p))

  -- A host shell that fails to start, in whatever step, leaves no container that was not there
  -- before, but the one it created when the daemon fails to remove it, an error that is passed over;
  -- one that starts leaves at most the container that it names.
  pub spawn-Leaves : (i : String) (cfg : ShellConfig) (w : W) → Leaves w (spawn d i cfg w)
  unfolding spawn
  spawn-Leaves i cfg w = image_step-Leaves w cfg i (ensure_image d i w) (ensure_image-Within i w)
