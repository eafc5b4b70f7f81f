-- ===== src/Completion/Jedi.antt =====
-- jedi's objects, as far as the server reads them. An attribute that the code reads in a `try` of its own
-- is an Option, none where it raises, and one that it tests by `hasattr` is none where it is missing.
use python_vscode.Prelude.{ℕ, Text, Bool, Option, List}

pub record Param : Type 0 where
  pub name : Text
  pub description : Text
  pub docstring : Option Text

-- A call signature; `children` are the codes and type names of the children of its `_definition`.
pub record Signature : Type 0 where
  pub name : Text
  pub kind : Text
  pub description : Text
  pub docstring : Option Text
  pub raw_docstring : Option Text
  pub index : Option ℕ
  pub params : List Param
  pub children : Option (List (Text × Text))

pub record Parent : Type 0 where
  pub name : Text
  pub kind : Text

-- A completion; its parent is asked for outside of any `try`.
pub record Completion : Type 0 where
  pub name : Text
  pub kind : Text
  pub params : Option (List Param)
  pub children : Option (List (Text × Text))
  pub parent : Parent
  pub module_name : Text
  pub module_path : Text
  pub line : ℕ
  pub column : ℕ

-- A line from 1, and a column
pub record Position : Type 0 where
  pub line : ℕ
  pub column : ℕ

-- What `_extract_range` reads of the syntax tree: the start of the scope of a class or a function, else of
-- the symbol, the code of the scope, and the end of the symbol.
pub record Tree : Type 0 where
  pub start : Position
  pub code : Text
  pub stop : Position

-- A definition; `tree` is none where a name of the syntax tree is missing, `line` and `column` are none
-- outside of source code, and `module_path` is empty where there is none.
pub record Definition : Type 0 where
  pub name : Text
  pub kind : Text
  pub full_name : Text
  pub description : Text
  pub module_path : Text
  pub line : Option ℕ
  pub column : Option ℕ
  pub docstring : Option Text
  pub raw_docstring : Option Text
  pub has_line_code : Bool
  pub parent : Option Parent
  pub params : Option (List Param)
  pub tree : Option Tree

-- The definitions are numbered, and `==` compares the numbers. A definition's `goto_assignments` is none
-- where it raises.
pub record Jedi : Type 0 where
  pub definition : ℕ → Definition
  pub goto : ℕ → Option (List ℕ)

pub record Usage : Type 0 where
  pub name : Text
  pub module_name : Text
  pub module_path : Text
  pub line : ℕ
  pub column : ℕ
