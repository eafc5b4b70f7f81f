-- ===== src/Refactor/Requests.antt =====
-- The requests of the refactoring server and its loop.
pub mod Turns
use python_vscode.Prelude.{
  ℕ, zero, suc, Text, Bool, true, false, Option, none, some, List, [], ◌∷◌, ◌++◌, if◌then◌else◌,
  same, codes,
}
use python_vscode.Refactor.{Found, Platform, refactor, diffs}
use python_vscode.Prelude.Options.{◌>>=◌}

-- The fields of a request, none where one is missing or `int` refuses it
pub record Request : Type 0 where
  pub id : Option ℕ
  pub lookup : Option Text
  pub file : Option Text
  pub start : Option ℕ
  pub stop : Option ℕ
  pub name : Option Text
  pub indent_size : Option ℕ

-- `json.loads`, and what rope finds in a project with an indentation: a renaming of the symbol at a place
-- of a file to a name, and the extractions between two places, with `similar` and `global_`.
pub record Rope : Type 0 where
  pub loads : Text → Option Request
  pub rename : ℕ → Text → ℕ → Text → Found
  pub extract_variable : ℕ → Text → ℕ → ℕ → Text → Bool → Bool → Found
  pub extract_method : ℕ → Text → ℕ → ℕ → Text → Bool → Bool → Found

-- What is written: to the standard output the start, or the diffs for an id, and to the standard error
-- the JSON of an exception
pub data Output : Type 0 where
  started error : Output
  diffs_for : ℕ → List Text → Output

module _ (p : Platform) (rope : Rope) where
  abbrev pub diffs_found : Found → Option (List Text)
  diffs_found f = refactor p f >>= λ changes. some (diffs p changes)

  unfoldable pub rename : Text → ℕ → Text → ℕ → Option (List Text)
  rename file start name indent_size = diffs_found (rope.rename indent_size file start name)

  unfoldable pub extract_variable : Text → ℕ → ℕ → Text → ℕ → Option (List Text)
  extract_variable file start stop name indent_size =
      diffs_found (rope.extract_variable indent_size file start stop name true false)

  unfoldable pub extract_method : Text → ℕ → ℕ → Text → ℕ → Option (List Text)
  extract_method file start stop name indent_size =
      diffs_found (rope.extract_method indent_size file start stop name true false)

  unfoldable pub process_rename : Request → Option Output
  unfolding rename
  process_rename r = do
    file ← r.file
    start ← r.start
    name ← r.name
    indent_size ← r.indent_size
    changes ← rename file start name indent_size
    id ← r.id
    some (diffs_for id changes)

  -- Of an extraction, with the same fields
  unfoldable pub process_extract :
      (Text → ℕ → ℕ → Text → ℕ → Option (List Text)) → Request → Option Output
  process_extract extract r = do
    file ← r.file
    start ← r.start
    stop ← r.stop
    name ← r.name
    indent_size ← r.indent_size
    changes ← extract file start stop name indent_size
    id ← r.id
    some (diffs_for id changes)

  abbrev pub or_empty : Option Text → Text
  or_empty none = []
  or_empty (some t) = t

  abbrev pub written : Option Output → List Output
  written none = error ∷ []
  written (some o) = o ∷ []

  -- The tests of `lookup`; one that is empty or unknown writes nothing.
  unfoldable pub process_lookup : Request → Text → List Output
  unfolding process_rename process_extract extract_variable extract_method
  process_lookup r lookup =
      if same lookup []
      then []
      else if same lookup (codes "rename")
      then written (process_rename r)
      else if same lookup (codes "extract_variable")
      then written (process_extract extract_variable r)
      else if same lookup (codes "extract_method")
      then written (process_extract extract_method r)
      else []

  abbrev pub process : Option Request → List Output
  process none = error ∷ []
  process (some r) = process_lookup r (or_empty r.lookup)

  -- `_process_request` within the `try` of the loop
  unfoldable pub process_request : Text → List Output
  unfolding process_lookup
  process_request rq = process (rope.loads rq)

  -- The next `turns` turns of the loop of `watch`, on the lines that are left
  unfoldable pub turns : ℕ → List Text → List Output
  unfolding process_request
  turns zero lines = []
  turns (suc n) [] = process_request [] ++ turns n []
  turns (suc n) (l ∷ lines) = process_request l ++ turns n lines

  unfoldable pub watch : ℕ → List Text → List Output
  unfolding turns
  watch n lines = started ∷ turns n lines
