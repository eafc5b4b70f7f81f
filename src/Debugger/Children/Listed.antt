-- ===== src/Debugger/Children/Listed.antt =====
-- Which items are among the children.
use python_vscode.Prelude.{
  ℕ, zero, suc, ◌-◌, Text, Bool, true, false, List, [], ◌∷◌, ◌++◌, ltb, if◌then◌else◌, length,
  length-append, take, append_assoc, append-nil, ◌≡◌, refl, ◌∙◌, arith,
}
use python_vscode.Debugger.Children.{Child, Row, item_child, halted, add_items}

-- How many items there is room for
abbrev pub room : {A : Type 0} → List (Child A) → ℕ
room children = 10001 - length children

module _ {A : Type 0} (decimal : ℕ → Text) (expr enum_var enum_expr : Text) where
  -- The items of some rows, by their indices
  abbrev pub row_children : ℕ → List (Row A) → List (Child A)
  row_children index [] = []
  row_children index (row ∷ rows) =
      item_child decimal expr enum_var enum_expr index row ∷ row_children (suc index) rows

  -- The children of some rows where there is room for `n`
  abbrev listed : ℕ → ℕ → List (Row A) → List (Child A) × Bool
  listed n index [] = ([], false)
  listed zero index (row ∷ rows) = (halted ∷ [], true)
  listed (suc n) index (row ∷ rows) =
      let (children, is_broken) = listed n (suc index) rows in
      (item_child decimal expr enum_var enum_expr index row ∷ children, is_broken)

  listed-take :
      (n index : ℕ) (rows : List (Row A))
      → listed n index rows ≡ (
        row_children index (take n rows) ++ (if ltb n (length rows) then halted ∷ [] else []),
        ltb n (length rows),
      )
  listed-take zero index [] = refl
  listed-take (suc n) index [] = ground arith
  listed-take zero index (row ∷ rows) = ground arith
  listed-take (suc n) index (row ∷ rows) = rw (listed-take n (suc index) rows) (ground arith)

  add_items-room :
      (rows : List (Row A)) (index n : ℕ) (children : List (Child A))
      → room children ≡ n
      → add_items decimal expr enum_var enum_expr index rows children
        ≡ (children ++ (listed n index rows).0, (listed n index rows).1)
  unfolding add_items
  add_items-room [] index n children e = rw (append-nil children) refl
  add_items-room (row ∷ rows) index zero children e = ground arith
  add_items-room (row ∷ rows) index (suc n) children e =
      let c : Child A = item_child decimal expr enum_var enum_expr index row in
      let ih =
        add_items-room rows (suc index) n (children ++ c ∷ [])
          (omega (arith, length-append children (c ∷ []))) in
      let t : ltb 10000 (length children) ≡ false = ground arith in
      rw (t, ih, append_assoc children (c ∷ []) (listed n (suc index) rows).0) refl

  -- After the children that are there before, the items are listed in order, as many as fit into 10001 children
  -- in all, and then, if there are more, one child that says so; and the loop is broken off exactly then.
  pub add_items-listed :
      (rows : List (Row A)) (index : ℕ) (children : List (Child A))
      → add_items decimal expr enum_var enum_expr index rows children ≡ (
        children
            ++ (row_children index (take (room children) rows)
                ++ (if ltb (room children) (length rows) then halted ∷ [] else [])),
        ltb (room children) (length rows),
      )
  add_items-listed rows index children =
      add_items-room rows index (room children) children refl
      ∙ rw (listed-take (room children) index rows) refl
