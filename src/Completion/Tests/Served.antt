-- ===== src/Completion/Tests/Served.antt =====
-- Requests that the completion server answers.
use python_vscode.Prelude.{
  ◌≡◌, refl, Text, false, none, some, List, [], ◌∷◌, ◌++◌, arith, codes, if◌then◌else◌, same,
  length,
}
use python_vscode.Completion.{returned, key_error}
use python_vscode.Completion.Paths.{
  SysPath, init_paths, get_top_level_module, normalize_request_path, normalize_path,
}
use python_vscode.Completion.Requests.{
  Request, Script, World, end_of_file, process_request, write_response, watch,
}
use python_vscode.Completion.Requests.Watched.{served, watch-served}
use python_vscode.Completion.Requests.Answered.{IsAnswer, is_lost, process_request-IsAnswer}
use python_vscode.Completion.Tests.{same_text, never, is_blank, one_line, small_jedi}

abbrev request_for : Text → Request
request_for lookup = record {
  id = some 7;
  lookup = some lookup;
  path = some (codes "m.py");
  source = none;
  line = some 0;
  column = some 1;
  prefix = none;
  config = none;
}

-- jedi raises a KeyError for the completions.
abbrev script : Script
script = record {
  goto_assignments = key_error;
  goto_assignments_followed = returned (0 ∷ []);
  goto_definitions = key_error;
  usages = returned [];
  call_signatures = returned [];
  completions = key_error;
  method_completions = key_error;
}

abbrev world : World
world = record {
  loads = λ t. if same t [] then none else some (request_for t);
  names = λ source path. returned (0 ∷ 1 ∷ []);
  script = λ source line column path paths. some script;
  jedi = small_jedi;
  files = record { dirname = λ p. []; has_init = λ p. false };
  limit = 3;
  drive_mount = [];
  jedi_preview = false;
  lower = same_text;
  is_upper = never;
  is_space = is_blank;
  split_lines = one_line;
}

abbrev no_paths : SysPath
no_paths = init_paths []

process_request-IsAnswer_example :
    IsAnswer 7
      (is_lost (codes "methods") script)
      (write_response (process_request world (codes "methods") no_paths).0)
unfolding get_top_level_module normalize_request_path normalize_path
process_request-IsAnswer_example =
    process_request-IsAnswer world (codes "methods") (request_for (codes "methods")) 7 0 1
      (codes "m.py") script no_paths refl refl refl refl refl refl refl

abbrev two_lines : List Text
two_lines = codes "tooltip" ∷ codes "methods" ∷ []

watch-served_example :
    (watch world 3 two_lines no_paths
      ≡ some (
        (served world two_lines no_paths).0 ++ end_of_file ∷ [],
        (served world two_lines no_paths).1,
      ))
    × (length (served world two_lines no_paths).0 ≡ length two_lines)
watch-served_example = watch-served world 3 two_lines no_paths (refl, (refl, tt)) (omega arith)
