-- ===== src/SafeRepr/Tests.antt =====
-- Nested lists.
use python_vscode.Prelude.{◌≡◌, ◌≤◌, refl, false, arith, length, codes}
use python_vscode.SafeRepr.Shape.{Brackets, Object, other, collection, Objects, nil, cons, itself}
use python_vscode.SafeRepr.{safe_repr}
use python_vscode.SafeRepr.Truncate.{truncate, repr_obj}
use python_vscode.SafeRepr.Bounds.{Fits, length-safe_repr-le, outer_width}

abbrev list_brackets : Brackets
list_brackets = record {
  prefix = codes "[";
  suffix = codes "]";
  comma_after_single_element = false;
}

abbrev list : Objects → Object
list items = collection list_brackets items

-- [1, [[2], []], itself]
abbrev nested : Object
nested = list (
    cons (other (codes "1"))
      (cons (list (cons (list (cons (other (codes "2")) nil)) (cons (list nil) nil))) (itself nil)))

safe_repr-nested : safe_repr nested ≡ codes "[1, [[...], [...]], [...]]"
unfolding safe_repr repr_obj truncate
safe_repr-nested = refl

length-safe_repr-le_example : length (safe_repr nested) ≤ outer_width 0 nested
length-safe_repr-le_example = length-safe_repr-le 0 nested (unfold Fits in ground arith)
