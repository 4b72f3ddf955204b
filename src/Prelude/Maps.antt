-- ===== src/Prelude/Maps.antt =====
-- A Go map with string keys: an association list, read through `lookup`. The order of the list is
-- the order in which a `range` over the map meets its entries, which Go leaves open.
use mathlib.Core.Path.{◌≡◌, refl}
use mathlib.Core.Logic.{ite, inl, inr}
use mathlib.Core.List.{List, [], ◌∷◌}
use mathlib.Core.Option.{Option, none, some}
use native.Mathlib.Omega.{arith}
use pico.Prelude.Lists.{Elem}
use pico.Prelude.Strings.{GoString, str_dec}

abbrev pub GoMap {ℓ} : Type ℓ → Type ℓ
GoMap V = List (GoString × V)

module _ {ℓ} {V : Type ℓ} where
  -- `v, ok := m[k]`
  unfoldable pub lookup : GoString → GoMap V → Option V
  lookup k [] = none
  lookup k ((j, v) ∷ m) = ite (str_dec j k) (some v) (lookup k m)

  -- `m[k] = v`
  unfoldable pub insert : GoString → V → GoMap V → GoMap V
  insert k v [] = (k, v) ∷ []
  insert k v ((j, w) ∷ m) = ite (str_dec j k) ((j, v) ∷ m) ((j, w) ∷ insert k v m)

  -- `delete(m, k)`
  unfoldable pub delete : GoString → GoMap V → GoMap V
  delete k [] = []
  delete k ((j, w) ∷ m) = ite (str_dec j k) (delete k m) ((j, w) ∷ delete k m)

  -- The values in the order of a `range` over the map.
  unfoldable pub values : GoMap V → List V
  values [] = []
  values ((k, v) ∷ m) = v ∷ values m

  -- Every key stands once, as in every map that a program can build.
  abbrev pub Distinct : GoMap V → Type ℓ
  Distinct [] = Unit
  Distinct ((k, v) ∷ m) = (lookup k m ≡ none) × Distinct m

  pub lookup-insert :
      (k j : GoString) (v : V) (m : GoMap V)
      → lookup j (insert k v m) ≡ ite (str_dec k j) (some v) (lookup j m)
  unfolding lookup insert
  lookup-insert k j v [] = refl
  lookup-insert k j v ((i, w) ∷ m) = ground (arith, lookup-insert k j v m)

  pub lookup-delete :
      (k j : GoString) (m : GoMap V) → lookup j (delete k m) ≡ ite (str_dec k j) none (lookup j m)
  unfolding lookup delete
  lookup-delete k j [] = ground arith
  lookup-delete k j ((i, w) ∷ m) = ground (arith, lookup-delete k j m)

  pub insert-Distinct : (k : GoString) (v : V) (m : GoMap V) → Distinct m → Distinct (insert k v m)
  unfolding lookup insert
  insert-Distinct k v [] d = (refl, tt)
  insert-Distinct k v ((i, w) ∷ m) d =
      ground (arith, insert-Distinct k v m d.1, lookup-insert k i v m)

  pub delete-Distinct : (k : GoString) (m : GoMap V) → Distinct m → Distinct (delete k m)
  unfolding lookup delete
  delete-Distinct k [] d = tt
  delete-Distinct k ((i, w) ∷ m) d = ground (arith, delete-Distinct k m d.1, lookup-delete k i m)

-- What a `range` meets is what the map holds.
pub Elem-values :
    {V : Type 0} (k : GoString) (v : V) (m : GoMap V) → lookup k m ≡ some v → Elem v (values m)
unfolding lookup values
Elem-values k v [] e = cc
Elem-values k v ((j, w) ∷ m) e = ground (arith, λ (h : lookup k m ≡ some v). Elem-values k v m h)

pub values-Elem :
    {V : Type 0} (v : V) (m : GoMap V)
    → Distinct m
    → Elem v (values m)
    → (k : GoString) × (lookup k m ≡ some v)
unfolding lookup values
values-Elem v ((j, w) ∷ m) d (inl e) = (j, ground arith)
values-Elem v ((j, w) ∷ m) d (inr h) = let (k, found) = values-Elem v m d.1 h in (k, ground arith)
values-Elem v [] d h = absurd h

pub ruleset map_laws = (lookup-insert, lookup-delete)
