-- ===== src/Shellbridge/Resolve/Chosen.antt =====
-- Which container a request for a deployment is resolved to.
use inferia_worker.Common.{
  contains, ◌&◌, quote, sym, subst, ap, String, List, [], ◌∷◌, ◌++◌, true, false, Option, none,
  some, Result, ok, err, ite, string_dec, ◌≡◌, ◌≢◌, ◌⊎◌, inl, inr, refl, arith, All, Bool-cases,
}
use inferia_worker.Shellbridge.Resolve.{
  Containers, Listed, Cli, any_contains, named, pick_named, lookup_by_deployment_id, container_of,
  or_else, resolve_container,
}

-- The text occurs in one of the names.
pub NameIn : String → List String → Type 0
NameIn t [] = ⊥
NameIn t (n ∷ ns) = (contains n t ≡ true) ⊎ NameIn t ns

abbrev pub HasName : String → Listed → Type 0
HasName t c = NameIn t c.names

-- The choice among the containers that Docker lists: the first that has such a name, or, when none
-- has, the first of all.
pub data Chosen (cs : List Listed) (t : String) : String → Type 0 where
  by_name :
      (before after : List Listed) (c : Listed)
      → cs ≡ before ++ c ∷ after
      → All (λ b. ¬ HasName t b) before
      → HasName t c
      → Chosen cs t c.id
  by_place :
      (c : Listed) (rest : List Listed)
      → cs ≡ c ∷ rest
      → All (λ b. ¬ HasName t b) cs
      → Chosen cs t c.id

any_contains-NameIn : (ns : List String) (t : String) → any_contains ns t ≡ true → NameIn t ns
unfolding any_contains NameIn
any_contains-NameIn [] t e = cc e
any_contains-NameIn (n ∷ ns) t e = elim (Bool-cases (contains n t)) [
  | inl h ↦ inl h
  | inr h ↦ inr (any_contains-NameIn ns t (ground (arith, e, h)))
]

any_contains_none : (ns : List String) (t : String) → any_contains ns t ≡ false → ¬ NameIn t ns
unfolding any_contains NameIn
any_contains_none [] t e i = i
any_contains_none (n ∷ ns) t e (inl h) = ground (arith, e, h)
any_contains_none (n ∷ ns) t e (inr i) = any_contains_none ns t (ground (arith, e)) i

-- The first container with such a name.
record Found (cs : List Listed) (t i : String) : Type 0 where
  before : List Listed
  after : List Listed
  here : Listed
  split : cs ≡ before ++ here ∷ after
  none_before : All (λ b. ¬ HasName t b) before
  has_name : HasName t here
  is_it : i ≡ here.id

-- What `named` finds: `d` when no container has such a name.
named-cases :
    (cs : List Listed) (t d : String)
    → (All (λ b. ¬ HasName t b) cs × (named cs t d ≡ d)) ⊎ Found cs t (named cs t d)
unfolding named
named-cases [] t d = inl (tt, refl)
named-cases (c ∷ cs) t d = elim (Bool-cases (any_contains c.names t)) [
  | inl h ↦ inr (record {
    before = [];
    after = cs;
    here = c;
    split = refl;
    none_before = tt;
    has_name = any_contains-NameIn c.names t h;
    is_it = rw h refl;
  })
  | inr h ↦ rw h (elim (named-cases cs t d) [
    | inl n ↦ inl ((any_contains_none c.names t h, n.0), n.1)
    | inr f ↦ inr (record {
      before = c ∷ f.before;
      after = f.after;
      here = f.here;
      split = ap (λ l. c ∷ l) f.split;
      none_before = (any_contains_none c.names t h, f.none_before);
      has_name = f.has_name;
      is_it = f.is_it;
    })
  ])
]

pick_named-Chosen :
    (cs : List Listed) (t : String)
    → pick_named (some cs) t ≢ ""
    → Chosen cs t (pick_named (some cs) t)
unfolding pick_named
pick_named-Chosen [] t h = absurd (h refl)
pick_named-Chosen (c ∷ cs) t h = elim (named-cases (c ∷ cs) t c.id) [
  | inl n ↦ subst (Chosen (c ∷ cs) t) (sym n.1) (by_place c cs refl n.0)
  | inr f ↦
      subst (Chosen (c ∷ cs) t) (sym f.is_it)
        (by_name f.before f.after f.here f.split f.none_before f.has_name)
]

-- The choice among those that Docker lists when it filters by the name.
pub ListedFor : Option Cli → String → String → Type 0
ListedFor cli name c =
    (list : Cli) × (cs : List Listed) × (cli ≡ some list) × (list name ≡ some cs) × Chosen cs name c

picked :
    (o : Option (List Listed)) (t : String)
    → pick_named o t ≢ ""
    → (cs : List Listed) × (o ≡ some cs) × Chosen cs t (pick_named o t)
unfolding pick_named
picked none t h = absurd (h refl)
picked (some cs) t h = (cs, refl, pick_named-Chosen cs t h)

lookup_by_deployment_id-ListedFor :
    (cli : Option Cli) (id : String)
    → lookup_by_deployment_id cli id ≢ ""
    → ListedFor cli id (lookup_by_deployment_id cli id)
unfolding lookup_by_deployment_id ListedFor
lookup_by_deployment_id-ListedFor none id h = absurd (h refl)
lookup_by_deployment_id-ListedFor (some list) id h = asked_for (string_dec id "") h
  where
    asked_for :
        (d : Dec (id ≡ ""))
        → ite d "" (pick_named (list id) id) ≢ ""
        → (l : Cli) × (cs : List Listed) × (some list ≡ some l)
          × (l id ≡ some cs)
          × Chosen cs id (ite d "" (pick_named (list id) id))
    asked_for (yes e) h = absurd (h refl)
    asked_for (no n) h = let (cs, e, m) = picked (list id) id h in (list, cs, refl, e, m)

-- The container that the runtime, if there is one, has for the deployment, and that it has none.
pub Knows : Option Containers → String → String → Type 0
Knows rt id c = (r : Containers) × (rt ≡ some r) × (r.container_for_deployment id ≡ c)

pub KnowsNone : Option Containers → String → Type 0
KnowsNone rt id = (r : Containers) → rt ≡ some r → r.container_for_deployment id ≡ ""

container_of-Knows :
    (rt : Option Containers) (id c : String) → c ≢ "" → container_of rt id ≡ c → Knows rt id c
unfolding container_of Knows
container_of-Knows none id c n e = absurd (n (sym e))
container_of-Knows (some r) id c n e = (r, refl, e)

container_of-KnowsNone :
    (rt : Option Containers) (id : String) → container_of rt id ≡ "" → KnowsNone rt id
unfolding container_of KnowsNone
container_of-KnowsNone none id e r h = cc h
container_of-KnowsNone (some q) id e r h = cc (e, h)

or_else-ok :
    (cid : String) (next : Result String) (c : String)
    → or_else cid next ≡ ok c
    → ((c ≢ "") × (cid ≡ c)) ⊎ ((cid ≡ "") × (next ≡ ok c))
or_else-ok cid next c e = ground (arith, e)

asked :
    (cli : Option Cli) (rt : Option Containers) (id c : String)
    → id ≢ ""
    → resolve_container cli rt "" id ≡ ok c
    → or_else (container_of rt id) (
        or_else
          (lookup_by_deployment_id cli id)
          (err ("deployment " & quote id & " has no running container")))
      ≡ ok c
unfolding resolve_container
asked cli rt id c n e = ground (arith, n, e)

-- A request for a deployment, and for no container, that is resolved is resolved to the container
-- that the runtime has for the deployment, or, when the runtime has none or there is no runtime, to
-- one of those that Docker lists when it filters by the deployment's id: the first with a name in
-- which the id occurs, and the first of all when there is none. It is never "".
pub resolve_container-Chosen :
    (cli : Option Cli) (rt : Option Containers) (id c : String)
    → id ≢ ""
    → resolve_container cli rt "" id ≡ ok c
    → (c ≢ "") × (Knows rt id c ⊎ (KnowsNone rt id × ListedFor cli id c))
resolve_container-Chosen cli rt id c n e =
    elim (or_else-ok (container_of rt id) _ c (asked cli rt id c n e)) [
      | inl h ↦ (h.0, inl (container_of-Knows rt id c h.0 h.1))
      | inr h ↦ elim (or_else-ok (lookup_by_deployment_id cli id) _ c h.1) [
        | inl g ↦ (
          g.0,
          inr (
            container_of-KnowsNone rt id h.0,
            subst (ListedFor cli id) g.1
                (lookup_by_deployment_id-ListedFor cli id (λ z. g.0 (cc (g.1, z)))),
          ),
        )
        | inr g ↦ cc g.1
      ]
    ]
