-- ===== src/Completion/Signatures.antt =====
-- The signatures of the calls at a place, and their arguments.
use python_vscode.Prelude.{
  ℕ, suc, Text, Bool, ◌&&◌, ◌||◌, Option, none, some, List, [], ◌∷◌, ◌++◌, ◌==◌, if◌then◌else◌,
  same, drop, codes, map,
}
use python_vscode.Prelude.Texts.{starts_with, split, join}
use python_vscode.Completion.{Attempt, returned, key_error, other_error}
use python_vscode.Completion.Jedi.{Param, Signature}

unfoldable pub get_param_name : Param → Text
get_param_name p = if starts_with (codes "param ") p.name then drop 6 p.name else p.name

-- `description.split('=')`, and its second part
abbrev pub second_of : Text × List Text → Option Text
second_of (first, []) = none
second_of (first, value ∷ more) = some value

unfoldable pub get_param_value : Param → Option Text
get_param_value p = second_of (split 61 p.description)

-- `_generate_signature`, of an object's type, name and parameters
unfoldable pub generate_signature : Text → Text → Option (List Param) → Text
generate_signature kind name none = []
generate_signature kind name (some params) =
    if same kind (codes "module")
    then []
    else name
      ++ (codes "(" ++ (join (codes ", ") (map (λ p. drop 6 p.description) params) ++ codes ")"))

abbrev pub is_self : ℕ → Param → Bool
is_self pos p = same p.name (codes "self") && pos == 0

abbrev pub is_starred : Param → Bool
is_starred p = starts_with (codes "*") (get_param_name p)

-- The inner loop of `_get_call_signatures`, from the parameter number `pos` on
unfoldable pub named_params : ℕ → Signature → List Param → List (Signature × Text × Option Text)
unfolding get_param_name get_param_value
named_params pos s [] = []
named_params pos s (p ∷ params) =
    let rest = named_params (suc pos) s params in
    if same p.name [] || is_self pos p || is_starred p
    then rest
    else (s, get_param_name p, get_param_value p) ∷ rest

abbrev pub all_named : List Signature → List (Signature × Text × Option Text)
all_named [] = []
all_named (s ∷ signatures) = named_params 0 s s.params ++ all_named signatures

-- Every exception leaves no signatures.
unfoldable pub get_call_signatures :
    Attempt (List Signature) → List (Signature × Text × Option Text)
unfolding named_params
get_call_signatures (returned signatures) = all_named signatures
get_call_signatures key_error = []
get_call_signatures other_error = []

pub record Argument : Type 0 where
  pub name : Text
  pub value : Option Text
  pub docstring : Text
  pub description : Text

pub record SignatureInfo : Type 0 where
  pub name : Text
  pub description : Text
  pub docstring : Text
  pub raw_docstring : Text
  pub param_index : Option ℕ
  pub bracket_start : List (Option ℕ)
  pub params : List Argument

abbrev pub or_blank : Option Text → Text
or_blank none = []
or_blank (some t) = t

-- Both docstrings are read in one `try`, and neither is kept if one of them raises.
abbrev pub docstrings : Option Text → Option Text → Text × Text
docstrings (some docstring) (some raw) = (docstring, raw)
docstrings _ _ = ([], [])

unfoldable pub arguments : ℕ → List Param → List Argument
unfolding get_param_name get_param_value
arguments pos [] = []
arguments pos (p ∷ params) =
    let rest = arguments (suc pos) params in
    if same p.name [] || is_self pos p
    then rest
    else record {
      name = get_param_name p;
      value = get_param_value p;
      docstring = or_blank p.docstring;
      description = p.description;
    }
      ∷ rest

unfoldable pub signature_info : Signature → SignatureInfo
unfolding arguments
signature_info s =
    let docs = docstrings s.docstring s.raw_docstring in
    record {
      name = s.name;
      description = s.description;
      docstring = docs.0;
      raw_docstring = docs.1;
      param_index = s.index;
      bracket_start = s.index ∷ [];
      params = arguments 0 s.params;
    }

-- Other exceptions than a KeyError pass.
unfoldable pub get_call_signatures_with_args :
    Attempt (List Signature) → Attempt (List SignatureInfo)
unfolding signature_info
get_call_signatures_with_args (returned signatures) = returned (map signature_info signatures)
get_call_signatures_with_args key_error = returned []
get_call_signatures_with_args other_error = other_error
