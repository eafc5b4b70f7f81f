-- ===== src/Prelude/Dict/Entries.antt =====
-- What holds of every entry of a dictionary.
use mathlib.Core.Path.{◌≡◌, sym, subst}
use mathlib.Core.Option.{some}
use mathlib.Core.Logic.{inl, inr}
use mathlib.Core.List.{[], ◌∷◌}
use native.Mathlib.Omega.{arith}
use python_vscode.Prelude.Tests.{Eq, Bool-cases}
use python_vscode.Prelude.Lists.{All}
use python_vscode.Prelude.Dict.{Dict, lookup, insert, remove}

module _ {ℓ κ μ} {K : Type ℓ} {V : Type κ} ⦃e : Eq K⦄ (P : K × V → Type μ) where
  pub All-insert : (k : K) (v : V) (d : Dict K V) → All P d → P (k, v) → All P (insert k v d)
  unfolding insert
  All-insert k v [] h p = (p, tt)
  All-insert k v ((j, w) ∷ d) h p = elim (Bool-cases (e.beq j k)) [
    | inl same ↦ rw same (subst (λ i. P (i, v)) (sym ((e.beq_iff j k).0 same)) p, h.1)
    | inr other ↦ rw other (h.0, All-insert k v d h.1 p)
  ]

  pub All-remove : (k : K) (d : Dict K V) → All P d → All P (remove k d)
  unfolding remove
  All-remove k [] h = tt
  All-remove k ((j, w) ∷ d) h = elim (Bool-cases (e.beq j k)) [
    | inl same ↦ rw same h.1
    | inr other ↦ rw other (h.0, All-remove k d h.1)
  ]

  pub All-lookup : (k : K) (d : Dict K V) {v : V} → All P d → lookup k d ≡ some v → P (k, v)
  unfolding lookup
  All-lookup k [] h q = cc
  All-lookup k ((j, w) ∷ d) {v} h q = elim (Bool-cases (e.beq j k)) [
    | inl same ↦
        subst (λ i. P (i, v)) ((e.beq_iff j k).0 same) (subst (λ u. P (j, u)) (ground arith) h.0)
    | inr other ↦ All-lookup k d h.1 (ground arith)
  ]
