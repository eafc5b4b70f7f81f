-- ===== src/Refactor/Tests.antt =====
-- Runs of the refactoring server on small inputs.
use python_vscode.Prelude.{
  ◌+◌, ◌≡◌, refl, Text, none, some, List, [], ◌∷◌, ◌++◌, ◌⊎◌, codes, length, if◌then◌else◌, same,
}
use python_vscode.Refactor.{Platform, found, failed, compared}
use python_vscode.Refactor.Diff.{AreCompared, compared-AreCompared}
use python_vscode.Refactor.Requests.{Request, Rope, started, watch}
use python_vscode.Refactor.Requests.Turns.{errors, lines_written, watch-errors}

-- A platform that shows the new lines
abbrev platform : Platform
platform = record { linesep = codes "\n"; unified_diff = λ old after from to. after }

compared-AreCompared_example :
    ((codes "a\nb" ≡ []) × (compared platform (codes "a\nb") (codes "c") ≡ none))
    ⊎ ((both : List Text × List Text) × ((compared platform (codes "a\nb") (codes "c") ≡ some both)
          × AreCompared platform (codes "a\nb") (codes "c") both))
compared-AreCompared_example = compared-AreCompared platform (codes "a\nb") (codes "c")

abbrev rename_request : Request
rename_request = record {
  id = some 4;
  lookup = some (codes "rename");
  file = some (codes "m.py");
  start = some 0;
  stop = none;
  name = some (codes "g");
  indent_size = some 4;
}

abbrev rope : Rope
rope = record {
  loads = λ t. if same t [] then none else some rename_request;
  rename = λ indent file start name. found [];
  extract_variable = λ indent file start stop name similar global. failed;
  extract_method = λ indent file start stop name similar global. failed;
}

watch-errors_example :
    watch platform rope (length (codes "r" ∷ []) + 2) (codes "r" ∷ [])
    ≡ started ∷ (lines_written platform rope (codes "r" ∷ []) ++ errors 2)
watch-errors_example = watch-errors platform rope 2 (codes "r" ∷ []) refl
