-- ===== src/Completion/Paths/Above.antt =====
-- The walk up to the top level module.
use python_vscode.Prelude.{
  ℕ, zero, suc, ◌<◌, ◌≡◌, refl, Text, true, false, some, arith, length, Bool-cases, inl, inr,
}
use python_vscode.Completion.Paths.{FileTree, get_top_level_module}

module _ (t : FileTree)
    (shorter : (path : Text)
      → t.has_init (t.dirname path) ≡ true
      → length (t.dirname path) < length path) where
  -- If a directory with an `__init__.py` has a shorter path than what is in it, then within a recursion limit
  -- above the length of the path the walk returns, at a path whose directory has no `__init__.py`.
  pub get_top_level_module-returns :
      (limit : ℕ) (path : Text)
      → length path < limit
      → (top : Text) × ((get_top_level_module t limit path ≡ some top)
          × (t.has_init (t.dirname top) ≡ false))
  unfolding get_top_level_module
  get_top_level_module-returns zero path h = absurd (omega arith)
  get_top_level_module-returns (suc limit) path h =
      elim (Bool-cases (t.has_init (t.dirname path))) [
        | inl i ↦
            let l : length (t.dirname path) < length path = shorter path i in
            rw i (get_top_level_module-returns limit (t.dirname path) (omega arith))
        | inr n ↦ rw n (path, (refl, n))
      ]
