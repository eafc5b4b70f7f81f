-- ===== src/Prelude/Dict.antt =====
-- Python's `dict` as an association list in insertion order: an assignment to a key that is
-- present keeps its place, a new key goes to the end.
pub mod Entries
use mathlib.Core.Path.{◌≡◌, refl}
use mathlib.Core.Bool.{Bool, true, false}
use mathlib.Core.Option.{Option, none, some}
use mathlib.Core.List.{List, [], ◌∷◌}
use native.Mathlib.Omega.{arith}
use python_vscode.Prelude.Tests.{Eq, if◌then◌else◌}

abbrev pub Dict {ℓ κ} : Type ℓ → Type κ → Type (ℓ ⊔ κ)
Dict K V = List (K × V)

module _ {ℓ κ} {K : Type ℓ} {V : Type κ} ⦃e : Eq K⦄ where
  -- d.get(k)
  unfoldable pub lookup : K → Dict K V → Option V
  lookup k [] = none
  lookup k ((j, v) ∷ d) = if e.beq j k then some v else lookup k d

  -- d[k] = v
  unfoldable pub insert : K → V → Dict K V → Dict K V
  insert k v [] = (k, v) ∷ []
  insert k v ((j, w) ∷ d) = if e.beq j k then (j, v) ∷ d else (j, w) ∷ insert k v d

  -- del d[k], d.pop(k, None)
  unfoldable pub remove : K → Dict K V → Dict K V
  remove k [] = []
  remove k ((j, w) ∷ d) = if e.beq j k then d else (j, w) ∷ remove k d

  -- k in d
  unfoldable pub has : K → Dict K V → Bool
  has k [] = false
  has k ((j, w) ∷ d) = if e.beq j k then true else has k d

  -- No key occurs twice.
  abbrev pub Distinct : Dict K V → Type 0
  Distinct [] = Unit
  Distinct ((k, v) ∷ d) = (has k d ≡ false) × Distinct d

  pub lookup-insert :
      (k j : K) (v : V) (d : Dict K V)
      → lookup j (insert k v d) ≡ (if e.beq k j then some v else lookup j d)
  unfolding lookup insert
  lookup-insert k j v [] = refl
  lookup-insert k j v ((i, w) ∷ d) =
      ground (arith, e.beq_iff k j, e.beq_iff i k, e.beq_iff i j, lookup-insert k j v d)

  pub has-insert :
      (k j : K) (v : V) (d : Dict K V)
      → has j (insert k v d) ≡ (if e.beq k j then true else has j d)
  unfolding has insert
  has-insert k j v [] = refl
  has-insert k j v ((i, w) ∷ d) =
      ground (arith, e.beq_iff k j, e.beq_iff i k, e.beq_iff i j, has-insert k j v d)

  pub has-remove :
      (k j : K) (d : Dict K V)
      → Distinct d
      → has j (remove k d) ≡ (if e.beq k j then false else has j d)
  unfolding has remove
  has-remove k j [] u = ground arith
  has-remove k j ((i, w) ∷ d) u =
      ground (arith, e.beq_iff k j, e.beq_iff i k, e.beq_iff i j, has-remove k j d)

  pub insert-Distinct : (k : K) (v : V) (d : Dict K V) → Distinct d → Distinct (insert k v d)
  unfolding insert has
  insert-Distinct k v [] u = (refl, tt)
  insert-Distinct k v ((i, w) ∷ d) u =
      ground (arith, has-insert k i v d, insert-Distinct k v d, e.beq_iff i k, e.beq_iff k i)

  pub remove-Distinct : (k : K) (d : Dict K V) → Distinct d → Distinct (remove k d)
  unfolding remove has
  remove-Distinct k [] u = tt
  remove-Distinct k ((i, w) ∷ d) u =
      ground (arith, has-remove k i d, remove-Distinct k d, e.beq_iff i k, e.beq_iff k i)

  lookup-eq-none : (k : K) (d : Dict K V) → has k d ≡ false → lookup k d ≡ none
  unfolding lookup has
  lookup-eq-none k [] h = refl
  lookup-eq-none k ((i, w) ∷ d) h = ground (arith, lookup-eq-none k d)

  pub lookup-remove :
      (k j : K) (d : Dict K V)
      → Distinct d
      → lookup j (remove k d) ≡ (if e.beq k j then none else lookup j d)
  unfolding lookup remove
  lookup-remove k j [] u = ground arith
  lookup-remove k j ((i, w) ∷ d) u = ground (
    arith,
    e.beq_iff k j,
    e.beq_iff i k,
    e.beq_iff i j,
    lookup-remove k j d,
    lookup-eq-none i d,
    lookup-eq-none j d,
  )
