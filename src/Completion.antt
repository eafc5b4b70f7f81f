-- ===== src/Completion.antt =====
-- The completion server (pythonFiles/completion.py). What jedi answers is a parameter: an attribute or a
-- call that the code reads in a `try` of its own is an Attempt or an Option.
pub mod Paths
pub mod Jedi
pub mod Signatures
pub mod Items
pub mod Definitions
pub mod Requests
mod Tests
use python_vscode.Prelude.{ℕ, Text, Bool, true, false, Option, none, some, List, [], ◌∷◌, codes}

-- What a call returns, or how it raises.
pub data Attempt {ℓ} (A : Type ℓ) : Type ℓ where
  returned : A → Attempt A
  key_error other_error : Attempt A
