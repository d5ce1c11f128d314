-- ===== src/Shellbridge/Resolve.antt =====
-- internal/shellbridge/resolve.go: which container a shell or a log is about. The runtime is seen
-- through the interface of shell.go, and the listing of containers is Docker's.
pub mod Chosen
use inferia_worker.Common.{
  contains, quote, String, List, [], ◌∷◌, Bool, true, false, Option, none, some, Result, ok, err,
  ite, string_dec, if◌then◌else◌, ◌&◌, ◌==◌, ◌||◌,
}

-- The part of the interface Runtime that a resolution reads.
pub record Containers : Type 0 where
  pub container_for_deployment : String → String
  pub loaded_deployments : List String

-- A container as Docker lists it.
pub record Listed : Type 0 where
  pub id : String
  pub names : List String

-- `ContainerList` with a filter by name; `none` is an error.
abbrev pub Cli : Type 0
Cli = String → Option (List Listed)

unfoldable pub any_contains : List String → String → Bool
any_contains [] t = false
any_contains (n ∷ names) t = contains n t || any_contains names t

-- The first container with the name in one of its own, and otherwise `d`.
unfoldable pub named : List Listed → String → String → String
unfolding any_contains
named [] t d = d
named (c ∷ cs) t d = let rest = named cs t d in if any_contains c.names t then c.id else rest

unfoldable pub pick_named : Option (List Listed) → String → String
unfolding named
pick_named none t = ""
pick_named (some []) t = ""
pick_named (some (c ∷ cs)) t = named (c ∷ cs) t c.id

unfoldable pub lookup_by_deployment_id : Option Cli → String → String
unfolding pick_named
lookup_by_deployment_id none id = ""
lookup_by_deployment_id (some list) id = ite (string_dec id "") "" (pick_named (list id) id)

unfoldable pub first_id : Option (List Listed) → String
first_id none = ""
first_id (some []) = ""
first_id (some (c ∷ cs)) = c.id

unfoldable pub lookup_most_recent : Option Cli → String
unfolding first_id
lookup_most_recent none = ""
lookup_most_recent (some list) = first_id (list "inferia-")

-- The container that the runtime knows, "" for none and for no runtime.
unfoldable pub container_of : Option Containers → String → String
container_of none id = ""
container_of (some rt) id = rt.container_for_deployment id

unfoldable pub first_loaded : Option Containers → String
first_loaded none = ""
first_loaded (some rt) = elim rt.loaded_deployments [
  | [] ↦ ""
  | id ∷ ids ↦ rt.container_for_deployment id
]

-- `if cid != "" { return cid, nil }`, and otherwise what follows.
abbrev pub or_else : String → Result String → Result String
or_else cid next = ite (string_dec cid "") next (ok cid)

unfoldable pub resolve_container : Option Cli → Option Containers → String → String → Result String
unfolding lookup_by_deployment_id lookup_most_recent container_of first_loaded
resolve_container cli rt container_id deployment_id = or_else container_id (
    ite (string_dec deployment_id "")
      (or_else (first_loaded rt)
        (or_else (lookup_most_recent cli) (err "no active deployment on this worker")))
      (or_else (container_of rt deployment_id) (
        or_else (lookup_by_deployment_id cli deployment_id)
          (err ("deployment " & quote deployment_id & " has no running container")))))
