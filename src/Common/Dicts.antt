-- ===== src/Common/Dicts.antt =====
-- Go maps as association lists. `insert` overwrites, `delete` removes every entry of the key, so
-- the laws need no invariant. The order of the entries stands for Go's unspecified order.
use Prim.Native.Nat.{ℕ}
use Prim.Native.String.{String}
use mathlib.Core.Path.{◌≡◌, refl, subst}
use mathlib.Core.Logic.{ite, ◌≢◌}
use mathlib.Core.Bool.{Bool, true, false}
use mathlib.Core.Option.{Option, none, some}
use mathlib.Core.List.{List, [], ◌∷◌, map}
use inferia_worker.Common.Lists.{All}
use native.Mathlib.Omega.{arith}
use native.Mathlib.Decide.{ℕ_discrete}
use text.Mathlib.Text.{◌==◌}
use text.Mathlib.TextEquality.{eq_iff}

-- A type of keys decides equality.
pub record Key {ℓ} (K : Type ℓ) : Type ℓ where
  pub dec_eq : Discrete K

abbrev pub dec {ℓ} : {K : Type ℓ} ⦃e : Key K⦄ (j k : K) → Dec (j ≡ k)
dec ⦃e⦄ = e.dec_eq

dec_of_test {ℓ} : {P : Type ℓ} (b : Bool) → (b ≡ true → P) → (P → b ≡ true) → Dec P
dec_of_test true f g = yes (f refl)
dec_of_test false f g = no (λ p. cc (g p))

unfoldable pub string_dec : Discrete String
unfolding dec_of_test
string_dec s t = dec_of_test (s == t) (eq_iff s t).0 (eq_iff s t).1

instance abbrev pub string_key : Key String
string_key = record { dec_eq = string_dec }

instance abbrev pub nat_key : Key ℕ
nat_key = record { dec_eq = ℕ_discrete }

abbrev pub Dict {ℓ} : Type ℓ → Type ℓ → Type ℓ
Dict K V = List (K × V)

module _ {ℓ} {V : Type ℓ} where
  abbrev pub first_of : Option V → Option V → Option V
  first_of none o = o
  first_of (some v) o = some v

module _ {ℓ} {K V : Type ℓ} where
  abbrev pub keys : Dict K V → List K
  keys = map (λ p. p.0)

module _ {ℓ} {K V : Type ℓ} ⦃e : Key K⦄ where
  abbrev pub lookup : K → Dict K V → Option V
  lookup k [] = none
  lookup k ((j, v) ∷ m) = ite (e.dec_eq j k) (some v) (lookup k m)

  abbrev pub insert : K → V → Dict K V → Dict K V
  insert k v [] = (k, v) ∷ []
  insert k v ((j, w) ∷ m) = ite (e.dec_eq j k) ((k, v) ∷ m) ((j, w) ∷ insert k v m)

  abbrev pub delete : K → Dict K V → Dict K V
  delete k [] = []
  delete k ((j, w) ∷ m) = ite (e.dec_eq j k) (delete k m) ((j, w) ∷ delete k m)

  pub lookup-insert :
      (k j : K) (v : V) (m : Dict K V)
      → lookup j (insert k v m) ≡ ite (e.dec_eq k j) (some v) (lookup j m)
  lookup-insert k j v [] = refl
  lookup-insert k j v ((i, w) ∷ m) = ground (arith, lookup-insert k j v m)

  pub lookup-delete :
      (k j : K) (m : Dict K V) → lookup j (delete k m) ≡ ite (e.dec_eq k j) none (lookup j m)
  lookup-delete k j [] = ground arith
  lookup-delete k j ((i, w) ∷ m) = ground (arith, lookup-delete k j m)

  pub delete-none : (k : K) (m : Dict K V) → lookup k (delete k m) ≡ none
  delete-none k [] = refl
  delete-none k ((j, w) ∷ m) = ground (arith, delete-none k m)

  pub delete-stays_none :
      (k j : K) (m : Dict K V) → lookup j m ≡ none → lookup j (delete k m) ≡ none
  delete-stays_none k j m e = ground (arith, e, lookup-delete k j m)

  -- Each entry of the first written over the second.
  abbrev pub put_all : Dict K V → Dict K V → Dict K V
  put_all [] m = m
  put_all ((k, v) ∷ new) m = insert k v (put_all new m)

  abbrev or_insert : Option V → K → V → Dict K V → Dict K V
  or_insert none k v m = insert k v m
  or_insert (some w) k v m = m

  -- Each entry of the first written into the second where its key is missing.
  abbrev pub fill : Dict K V → Dict K V → Dict K V
  fill [] m = m
  fill ((k, v) ∷ new) m = fill new (or_insert (lookup k m) k v m)

  pub lookup-put_all :
      (k : K) (v : V) (new m : Dict K V) → lookup k new ≡ some v → lookup k (put_all new m) ≡ some v
  lookup-put_all k v [] m h = cc h
  lookup-put_all k v ((j, w) ∷ new) m h =
      ground (arith, h, lookup-insert j k w (put_all new m), lookup-put_all k v new m)

  lookup-or_insert :
      (o : Option V) (j k : K) (w : V) (m : Dict K V)
      → lookup j m ≡ o
      → lookup k (or_insert o j w m) ≡ first_of (lookup k m) (ite (e.dec_eq j k) (some w) none)
  lookup-or_insert (some x) j k w m h = ground (arith, h)
  lookup-or_insert none j k w m h = ground (arith, h, lookup-insert j k w m)

  pub lookup-fill :
      (k : K) (new m : Dict K V) → lookup k (fill new m) ≡ first_of (lookup k m) (lookup k new)
  lookup-fill k [] m = ground arith
  lookup-fill k ((j, w) ∷ new) m = ground (
    arith,
    lookup-fill k new (or_insert (lookup j m) j w m),
    lookup-or_insert (lookup j m) j k w m refl,
  )

  pub lookup-All {κ} :
      (P : V → Type κ) (k : K) (m : Dict K V) (v : V)
      → All (λ e. P e.1) m
      → lookup k m ≡ some v
      → P v
  lookup-All P k [] v h found = cc found
  lookup-All P k ((j, w) ∷ m) v h found = elim (e.dec_eq j k) [
    | yes s ↦ subst P (ground (arith, s, found)) h.0
    | no n ↦ lookup-All P k m v h.1 (ground (arith, n, found))
  ]

  pub insert-other : (k j : K) (v : V) (m : Dict K V) → k ≢ j → lookup j (insert k v m) ≡ lookup j m
  insert-other k j v m n = ground (arith, n, lookup-insert k j v m)

  pub insert-same : (k : K) (v : V) (m : Dict K V) → lookup k (insert k v m) ≡ some v
  insert-same k v m = ground (arith, lookup-insert k k v m)
