-- ===== src/Debugger/Tests/Children.antt =====
-- The children of a list of two strings with a method of its class.
use python_vscode.Prelude.{ℕ, ◌+◌, Text, true, false, some, List, [], ◌∷◌, codes}
use python_vscode.Debugger.Children.{Child, Row, Inspected, iterable, attributes}

abbrev decimal : ℕ → Text
decimal n = (48 + n) ∷ []

abbrev rows : List (Row Text)
rows =
    record { key_repr = codes "0"; item = codes "a"; is_found = true }
    ∷ record { key_repr = codes "1"; item = codes "b"; is_found = false }
    ∷ []

abbrev strings : Inspected Text
strings = record {
  dir_names = codes "__len__" ∷ codes "sort" ∷ codes "x" ∷ [];
  class_names = codes "sort" ∷ [];
  dict_names = codes "x" ∷ [];
  slot_names = [];
  attribute = λ name. some (name, true);
  items = iterable (rows, false);
}

abbrev before : List (Child Text)
before = attributes decimal (codes "l") strings strings.dir_names
