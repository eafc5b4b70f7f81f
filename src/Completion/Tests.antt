-- ===== src/Completion/Tests.antt =====
-- Runs of the completion server on small inputs.
mod Served
use python_vscode.Prelude.{
  ℕ, zero, suc, ◌+◌, ◌<◌, ◌≤◌, ◌≡◌, refl, Text, Bool, true, false, Option, none, some, List, [],
  ◌∷◌, ◌++◌, ◌==◌, ◌||◌, ◌⊎◌, inl, inr, arith, All, codes, if◌then◌else◌, same, map,
}
use python_vscode.Prelude.Texts.{is_in}
use python_vscode.Completion.{Attempt, returned, key_error}
use python_vscode.Completion.Jedi.{Completion, Signature, Definition, Jedi}
use python_vscode.Completion.Paths.{
  SysPath, Config, current, serve_paths, init_paths, normalize_path, FileTree, get_top_level_module,
}
use python_vscode.Completion.Paths.Normal.{IsClean, normalize_path-normalize_path}
use python_vscode.Completion.Paths.Kept.{AreKept, serve_paths-keeps}
use python_vscode.Completion.Items.{
  serialize_completions, or_none, argument_items, argument_item, has_key,
}
use python_vscode.Completion.Signatures.{
  get_call_signatures, named_params, get_param_name, get_param_value,
}
use python_vscode.Prelude.Int.{pos}
use python_vscode.Completion.Items.Distinct.{Distinct, IsListed, serialize_completions-Distinct}
use python_vscode.Completion.Definitions.{
  top_definition, Range, Answer, tree_range, extract_range, serialize_definitions, get_definitionsx,
}
use python_vscode.Completion.Definitions.Ranges.{IsOrdered, extract_range-IsOrdered}
use python_vscode.Completion.Definitions.Agree.{unsigned, serialize_definitions-get_definitionsx}

abbrev pub same_text : Text → Text
same_text t = t

abbrev pub never : Text → Bool
never t = false

abbrev pub is_blank : ℕ → Bool
is_blank c = c == 32 || c == 10

abbrev pub one_line : Text → List Text
one_line t = t ∷ []

abbrev pub with_path : Text → Config
with_path p = record {
  use_snippets = none;
  show_descriptions = none;
  fuzzy_matcher = none;
  case_insensitive_completion = none;
  extra_paths = some (p ∷ []);
}

abbrev two_requests : List (Config × Text)
two_requests = (with_path (codes "a"), codes "m") ∷ (with_path (codes "b"), []) ∷ []

serve_paths-keeps_example :
    All (AreKept (current (serve_paths two_requests (init_paths (codes "lib" ∷ []))))) two_requests
    × ((is_in (codes "lib") (codes "lib" ∷ []) ≡ false)
        ⊎ (is_in (codes "lib") (current (serve_paths two_requests (init_paths (codes "lib" ∷ []))))
            ≡ true))
serve_paths-keeps_example = serve_paths-keeps two_requests (codes "lib" ∷ []) (codes "lib")

-- An import that leads to a function
abbrev pub definition_of : Text → Definition
definition_of kind = record {
  name = codes "f";
  kind = kind;
  full_name = codes "m.f";
  description = codes "def f";
  module_path = codes "m.py";
  line = some 3;
  column = some 0;
  docstring = some [];
  raw_docstring = some [];
  has_line_code = true;
  parent = none;
  params = some [];
  tree = some (record {
    start = record { line = 3; column = 0 };
    code = codes "def f():\n  pass\n\n";
    stop = record { line = 3; column = 5 };
  });
}

abbrev definitions : ℕ → Definition
definitions zero = definition_of (codes "import")
definitions (suc n) = definition_of (codes "function")

abbrev gotos : ℕ → Option (List ℕ)
gotos zero = some (0 ∷ 1 ∷ [])
gotos (suc n) = some []

abbrev pub small_jedi : Jedi
small_jedi = record { definition = definitions; goto = gotos }

scope_ends :
    extract_range one_line is_blank (definition_of (codes "function"))
    ≡ some (record {
      start_line = pos 2;
      start_column = some (pos 0);
      end_line = pos 3;
      end_column = some (pos 5);
    })
unfolding extract_range tree_range
scope_ends = refl

abbrev pub completion_named : Text → Completion
completion_named name = record {
  name = name;
  kind = codes "function";
  params = none;
  children = none;
  parent = record { name = codes "m"; kind = codes "module" };
  module_name = codes "m";
  module_path = codes "m.py";
  line = 1;
  column = 0;
}
