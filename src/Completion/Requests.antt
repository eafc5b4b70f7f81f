-- ===== src/Completion/Requests.antt =====
-- Requests: `_process_request`, `_write_response` and the loop `watch`. JSON, the file system, jedi and the
-- interpreter are parameters.
pub mod Answered
pub mod Watched
use python_vscode.Prelude.{
  ℕ, zero, suc, Text, Bool, true, false, Option, none, some, List, [], ◌∷◌, ◌++◌, if◌then◌else◌,
  same, codes,
}
use python_vscode.Completion.{Attempt, returned, key_error, other_error}
use python_vscode.Prelude.Options.{◌>>=◌}
use python_vscode.Completion.Jedi.{Jedi, Signature, Completion, Usage, Definition}
use python_vscode.Completion.Paths.{
  SysPath, current, Config, Settings, get_or, set_request_config, add_path, normalize_request_path,
  FileTree, get_top_level_module,
}
use python_vscode.Completion.Signatures.{SignatureInfo, get_call_signatures_with_args}
use python_vscode.Completion.Items.{
  Item, Method, Methods, response, bare_list, serialize_completions, serialize_methods,
}
use python_vscode.Completion.Definitions.{
  Answer, Tooltip, UsageItem, get_definitionsx, serialize_definitions, serialize_tooltip,
  serialize_usages,
}

-- A key that is missing is none.
pub record Request : Type 0 where
  pub id : Option ℕ
  pub lookup : Option Text
  pub path : Option Text
  pub source : Option Text
  pub line : Option ℕ
  pub column : Option ℕ
  pub prefix : Option Text
  pub config : Option Config

-- What a `jedi.Script` answers. The completions are there as `_serialize_completions` reads them, and as
-- `_serialize_methods` does.
pub record Script : Type 0 where
  pub goto_assignments : Attempt (List ℕ)
  pub goto_assignments_followed : Attempt (List ℕ)
  pub goto_definitions : Attempt (List ℕ)
  pub usages : Attempt (List Usage)
  pub call_signatures : Attempt (List Signature)
  pub completions : Attempt (List (Option Completion))
  pub method_completions : Attempt (List Completion)

-- What the server stands on. `loads` is `json.loads`, `names` is `jedi.api.names` of a source and a path,
-- `script` is `jedi.Script` of a source, a line, a column, a path and a list of paths, and `limit` is the
-- recursion limit.
pub record World : Type 0 where
  pub loads : Text → Option Request
  pub names : Option Text → Text → Attempt (List ℕ)
  pub script : Option Text → ℕ → ℕ → Text → List Text → Option Script
  pub jedi : Jedi
  pub files : FileTree
  pub limit : ℕ
  pub drive_mount : Text
  pub jedi_preview : Bool
  pub lower : Text → Text
  pub is_upper : Text → Bool
  pub is_space : ℕ → Bool
  pub split_lines : Text → List Text

pub data Results : Type 0 where
  answers : List Answer → Results
  tooltips : List Tooltip → Results
  signatures : List SignatureInfo → Results
  usages : List UsageItem → Results
  items : List Item → Results
  methods : List Method → Results

-- What `_process_request` returns: the text of `{'id': …, 'results': …}`, or a list that is no text.
pub data Reply : Type 0 where
  text : ℕ → Results → Reply
  no_text : Reply

abbrev pub no_config : Config
no_config = record {
  use_snippets = none;
  show_descriptions = none;
  fuzzy_matcher = none;
  case_insensitive_completion = none;
  extra_paths = none;
}

abbrev pub or_raise {ℓ} : {A : Type ℓ} → Attempt A → Option A
or_raise (returned a) = some a
or_raise key_error = none
or_raise other_error = none

abbrev pub definitions_of : Jedi → List ℕ → List Definition
definitions_of j [] = []
definitions_of j (d ∷ ds) = j.definition d ∷ definitions_of j ds

-- What the loop writes: a line to the standard output, or to the standard error a traceback or the
-- notice of the end of the input.
pub data Output : Type 0 where
  written : ℕ → Results → Output
  traceback end_of_file : Output

-- `_write_response`; a list and a text do not add up.
unfoldable pub write_response : Option Reply → Output
write_response none = traceback
write_response (some (text id results)) = written id results
write_response (some no_text) = traceback

-- `readline` of the lines that are left
abbrev pub readline : List Text → Text × List Text
readline [] = ([], [])
readline (l ∷ lines) = (l, lines)

module _ (w : World) where
  abbrev pub definitionsx : Bool → List ℕ → List Answer
  definitionsx ignore =
      get_definitionsx w.split_lines w.is_space w.lower w.is_upper w.jedi w.limit ignore

  abbrev pub tooltips_of : Attempt (List ℕ) → Option (List Tooltip)
  tooltips_of (returned ds) =
      serialize_tooltip w.split_lines w.is_space w.lower w.is_upper (definitions_of w.jedi ds)
  tooltips_of key_error = none
  tooltips_of other_error = none

  -- `defs` after a `try` that assigns it
  abbrev pub try_definitions : Attempt (List ℕ) → List Answer → List Answer
  try_definitions (returned ds) defs = definitionsx true ds
  try_definitions key_error defs = defs
  try_definitions other_error defs = defs

  abbrev pub if_empty : List Answer → List Answer → List Answer
  if_empty [] defs = defs
  if_empty (d ∷ ds) defs = d ∷ ds

  unfoldable pub tooltip_results : Script → Results
  tooltip_results s =
      if w.jedi_preview
      then answers
          (if_empty (try_definitions s.goto_definitions []) (try_definitions s.goto_assignments []))
      else elim (tooltips_of s.goto_definitions) [ none ↦ answers [] | some ts ↦ tooltips ts ]

  abbrev pub reply_methods : ℕ → Attempt Methods → Option Reply
  reply_methods id (returned (response ms)) = some (text id (methods ms))
  reply_methods id (returned bare_list) = some no_text
  reply_methods id key_error = none
  reply_methods id other_error = none

  -- The tests of `lookup` once there is a script; `none` is an exception that passes.
  unfoldable pub reply_to : ℕ → Request → Settings → Text → Script → Option Reply
  unfolding tooltip_results
  reply_to id rq settings lookup s =
      if same lookup (codes "definitions")
      then (or_raise s.goto_assignments_followed >>= λ ds.
          some (text id (answers (definitionsx false ds))))
      else if same lookup (codes "tooltip")
      then some (text id (tooltip_results s))
      else if same lookup (codes "arguments")
      then (or_raise (get_call_signatures_with_args s.call_signatures) >>= λ infos.
          some (text id (signatures infos)))
      else if same lookup (codes "usages")
      then (or_raise s.usages >>= λ us. some (text id (usages (serialize_usages us))))
      else if same lookup (codes "methods")
      then reply_methods id (serialize_methods s.method_completions)
      else some (
          text id (
            items (
              serialize_completions w.lower w.is_upper settings.fuzzy_matcher (get_or rq.prefix [])
                s.call_signatures s.completions)))

  unfoldable pub reply_names : Request → Text → Option Reply
  reply_names rq path = do
    ds ← or_raise (w.names rq.source path)
    id ← rq.id
    some (
        text id (
          answers
            (serialize_definitions w.split_lines w.is_space w.lower w.is_upper w.jedi w.limit ds)))

  -- `request.get('path', '')`, normalized
  abbrev pub path_of : Request → Text
  path_of rq = get_or (normalize_request_path w.lower w.drive_mount rq.path) []

  -- The rest of `_process_request`, from `lookup` on
  unfoldable pub look_up : Request → Settings → List Text → Option Reply
  unfolding reply_to reply_names
  look_up rq settings sys_path =
      let lookup = get_or rq.lookup (codes "completions") in
      let path = path_of rq in
      if same lookup (codes "names") then reply_names rq path else do
        line ← rq.line
        column ← rq.column
        s ← w.script rq.source (suc line) column path sys_path
        id ← rq.id
        reply_to id rq settings lookup s

  abbrev pub looked_up : Request → Settings → SysPath → Option Text → Option Reply × SysPath
  looked_up rq settings sys none = (none, sys)
  looked_up rq settings sys (some top) =
      let sys' : SysPath = add_path top sys in (look_up rq settings (current sys'), sys')

  abbrev pub process : SysPath → Option Request → Option Reply × SysPath
  process sys none = (none, sys)
  process sys (some r) =
      let (settings, sys') = set_request_config (get_or r.config no_config) sys in
      looked_up r settings sys' (get_top_level_module w.files w.limit (path_of r))

  -- `_process_request`, of the text of a request; the paths stay changed also where it raises.
  unfoldable pub process_request : Text → SysPath → Option Reply × SysPath
  unfolding look_up
  process_request rq sys = process sys (w.loads rq)

  -- `watch` as far as the fuel goes: none is a loop that goes on.
  unfoldable pub watch : ℕ → List Text → SysPath → Option (List Output × SysPath)
  unfolding process_request write_response
  watch zero lines sys = none
  watch (suc fuel) lines sys =
      let (rq, rest) = readline lines in
      let (answer, sys') = process_request rq sys in
      let more = watch fuel rest sys' in
      if same rq []
      then some (end_of_file ∷ [], sys)
      else (more >>= λ (outputs, last). some (write_response answer ∷ outputs, last))
