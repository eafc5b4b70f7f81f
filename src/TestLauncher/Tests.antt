-- ===== src/TestLauncher/Tests.antt =====
-- The choice of one test of a file.
use python_vscode.Prelude.{◌≡◌, refl, none, some, List, [], ◌∷◌, codes, if◌then◌else◌}
use python_vscode.TestLauncher.{TestClass, methods, no_tests, method, select}
use python_vscode.TestLauncher.Picked.{all_files, select-method}

-- A file with two classes, and one that cannot be imported
abbrev files : List (List TestClass)
files =
    (methods (codes "a.A.x" ∷ codes "a.A.xy" ∷ []) ∷ methods (codes "a.B.x" ∷ []) ∷ [])
    ∷ (no_tests ∷ [])
    ∷ []

select-method_example :
    select (some (codes "a.A.xy")) files
    ≡ (if all_files files then some (some (method (codes "a.A.xy"))) else none)
select-method_example = select-method (codes "a.A.xy") files refl
