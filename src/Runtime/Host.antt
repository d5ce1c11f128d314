-- ===== src/Runtime/Host.antt =====
-- What the runtime calls and does not implement: the Docker daemon behind the interface Client of
-- internal/runtime/dockerclient/client.go, the HTTP probe, the pull through the ollama server, and
-- the clock. `W` is the state of all these; a call returns the new one.
use inferia_worker.Common.{
  ℕ, ◌+◌, ◌≤◌, ◌≡◌, String, List, Bool, true, false, Option, none, Result, ok, err, ◌⊎◌,
}
use inferia_worker.Recipes.Plan.{Plan}
use inferia_worker.Docker.Spec.{ContainerSpec}

-- The context of a call: that of the request, which may be cancelled, or a fresh one for cleanup.
pub data Ctx : Type 0 where
  request cleanup : Ctx

pub record Host : Type 1 where
  pub W : Type 0
  -- the progress lines that the pull reported, and its error
  pub pull : Ctx → String → W → W × List String × Option String
  pub remove_by_name : Ctx → String → W → W × Option String
  pub create : Ctx → ContainerSpec → W → W × Result String
  pub start : Ctx → String → W → W × Option String
  pub stop : Ctx → String → W → W × Option String
  pub remove : Ctx → String → W → W × Option String
  pub remove_image : Ctx → String → W → W × Option String
  pub ollama_pull_if_needed : Ctx → Plan → String → ℕ → W → W × Option String
  -- whether a container of this id exists
  pub present : W → String → Bool
  pub probe : String → W → W × Bool
  -- wait so long; false if the context of the request ends first
  pub pause : ℕ → W → W × Bool
  pub now : W → ℕ

-- No container of `w'` is missing from `w`.
abbrev pub Within : (h : Host) → h.W → h.W → Type 0
Within h w w' = (c : String) → h.present w' c ≡ true → h.present w c ≡ true

-- What the runtime relies on. Only `create` makes a container, and it makes the one that it names.
-- A removal that reports no error removes.
pub record HostLaws (h : Host) : Type 0 where
  pub pull_makes : (x : Ctx) (i : String) (w : h.W) → Within h w (h.pull x i w).0
  pub remove_by_name_makes :
      (x : Ctx) (n : String) (w : h.W) → Within h w (h.remove_by_name x n w).0
  pub start_makes : (x : Ctx) (c : String) (w : h.W) → Within h w (h.start x c w).0
  pub stop_makes : (x : Ctx) (c : String) (w : h.W) → Within h w (h.stop x c w).0
  pub remove_makes : (x : Ctx) (c : String) (w : h.W) → Within h w (h.remove x c w).0
  pub remove_image_makes : (x : Ctx) (i : String) (w : h.W) → Within h w (h.remove_image x i w).0
  pub ollama_makes :
      (x : Ctx) (p : Plan) (u : String) (t : ℕ) (w : h.W)
      → Within h w (h.ollama_pull_if_needed x p u t w).0
  pub probe_makes : (u : String) (w : h.W) → Within h w (h.probe u w).0
  pub pause_makes : (t : ℕ) (w : h.W) → Within h w (h.pause t w).0
  pub create_failed :
      (x : Ctx) (s : ContainerSpec) (w : h.W) (e : String)
      → (h.create x s w).1 ≡ err e
      → Within h w (h.create x s w).0
  pub create_made :
      (x : Ctx) (s : ContainerSpec) (w : h.W) (c : String)
      → (h.create x s w).1 ≡ ok c
      → (d : String) → h.present (h.create x s w).0 d ≡ true
      → (d ≡ c) ⊎ (h.present w d ≡ true)
  pub removed :
      (x : Ctx) (c : String) (w : h.W)
      → (h.remove x c w).1 ≡ none
      → h.present (h.remove x c w).0 c ≡ false
  pub probe_time : (u : String) (w : h.W) → h.now w ≤ h.now (h.probe u w).0
  pub pause_time : (t : ℕ) (w : h.W) → (h.pause t w).1 ≡ true → h.now w + t ≤ h.now (h.pause t w).0
