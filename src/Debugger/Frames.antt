-- ===== src/Debugger/Frames.antt =====
-- What is sent of a thread's frames: `should_debug_code`, `should_send_frame` and `get_frame_list` for
-- Python 3, while DJANGO_DEBUG is off. The path functions of the platform and `isdir` are parameters.
pub mod Variables
pub mod Zips
use python_vscode.Prelude.{
  ℕ, zero, suc, ◌+◌, Text, Bool, true, false, not, ◌&&◌, ◌||◌, Option, none, some, List, [], ◌∷◌,
  ◌++◌, if◌then◌else◌, same, text_eq, codes, length, take, drop, ◌-◌,
}
use python_vscode.Prelude.Int.{ℤ, pos, negsuc}
use python_vscode.Prelude.Dict.{Dict, lookup}
use python_vscode.Prelude.Texts.{ends_with, is_in, starts_with}

-- `split (abspath p)` has the directory of a path first.
pub record Paths : Type 0 where
  pub normcase : Text → Text
  pub abspath : Text → Text
  pub directory : Text → Text
  pub isdir : Text → Bool

-- The file name without the last letter of .pyc or .pyo
abbrev pub source_name : Text → Text
source_name file =
    if ends_with (codes ".pyc") file || ends_with (codes ".pyo") file
    then take (length file - 1) file
    else file

unfoldable pub is_same_py_file : Text → Text → Bool
is_same_py_file file other = same (source_name file) (source_name other)

-- KNOWN_DIRECTORIES and KNOWN_ZIPS
pub record Known : Type 0 where
  pub directories : List Text
  pub zips : List Text

abbrev pub no_known : Known
no_known = record { directories = [] ∷ []; zips = [] }

unfoldable pub is_file_in_zip : Paths → Text → Known → Bool × Known
is_file_in_zip p filename k =
    let parent = p.directory (p.abspath filename) in
    if is_in parent k.directories
    then (false, k)
    else if is_in parent k.zips
    then (true, k)
    else if p.isdir parent
    then (false, record k { directories = parent ∷ k.directories })
    else (true, record k { zips = parent ∷ k.zips })

-- PREFIXES, DEBUG_STDLIB and DONT_DEBUG
pub record Scope : Type 0 where
  pub prefixes : List Text
  pub debug_stdlib : Bool
  pub dont_debug : List Text

abbrev pub has_prefix : Text → List Text → Bool
has_prefix filename [] = false
has_prefix filename (prefix ∷ prefixes) =
    let rest = has_prefix filename prefixes in
    if not (same prefix []) && starts_with prefix filename then true else rest

abbrev pub is_any_file : Text → List Text → Bool
is_any_file filename [] = false
is_any_file filename (f ∷ files) =
    let rest = is_any_file filename files in if is_same_py_file filename f then true else rest

-- Of the file name of a code, which is empty where there is none
unfoldable pub should_debug_code : Paths → Scope → Text → Known → Bool × Known
unfolding is_file_in_zip
should_debug_code p scope co_filename k =
    let filename = p.normcase co_filename in
    let (in_zip, k') = is_file_in_zip p filename k in
    if same co_filename []
    then (false, k)
    else if not scope.debug_stdlib && has_prefix filename scope.prefixes
    then (false, k)
    else if is_any_file filename scope.dont_debug
    then (false, k)
    else (not in_zip, k')

-- What is read of a frame: `line_table` is `co_lnotab`, and `span_end` is IronPython's, each none where
-- it is missing.
pub record CodeFrame (A : Type 0) : Type 0 where
  pub co_filename : Text
  pub co_name : Text
  pub co_firstlineno : ℕ
  pub co_argcount : ℕ
  pub line_table : Option (List ℕ)
  pub span_end : Option ℕ
  pub f_lineno : ℕ
  pub is_entrypoint : Bool
  pub f_locals : Dict Text A
  pub f_globals : Dict Text A
  pub locals_are_globals : Bool
  pub co_varnames : List Text
  pub co_names : List Text

-- A variable has no object where its name is undefined.
pub record FrameInfo (A : Type 0) : Type 0 where
  pub first_line : ℕ
  pub last_line : ℤ
  pub line : ℕ
  pub name : Text
  pub filename : Text
  pub arg_count : ℕ
  pub variables : Dict Text (Option A)

-- The sum of every second entry, from the second on
abbrev pub sum_odd : List ℕ → ℕ
sum_odd [] = 0
sum_odd (a ∷ []) = 0
sum_odd (a ∷ b ∷ table) = b + sum_odd table

unfoldable pub last_line_of : ℕ → Option (List ℕ) → Option ℕ → ℤ
last_line_of first (some table) span = pos (first + sum_odd table)
last_line_of first none (some line) = pos line
last_line_of first none none = negsuc 0

-- `vars` and `treated`
abbrev pub Collected : Type 0 → Type 0
Collected A = Dict Text (Option A) × List Text

module _ {A : Type 0} where
  abbrev pub add_variable : Text → Option A → Collected A → Collected A
  add_variable name object (vars, treated) = (vars ++ (name, object) ∷ [], name ∷ treated)

  -- One turn of the loop, for a name and what is found for it
  abbrev pub collect_one : Bool → Text → Option A → Collected A → Collected A
  collect_one skip_unknown name (some object) c = add_variable name (some object) c
  collect_one skip_unknown name none c = if skip_unknown then c else add_variable name none c

  unfoldable pub collect_variables : Bool → Dict Text A → List Text → Collected A → Collected A
  collect_variables skip_unknown objects [] c = c
  collect_variables skip_unknown objects (name ∷ names) c =
      collect_variables skip_unknown objects names
        (if is_in name c.1 then c else collect_one skip_unknown name (lookup name objects) c)

  abbrev pub keys : Dict Text A → List Text
  keys [] = []
  keys ((k, v) ∷ d) = k ∷ keys d

  unfoldable pub frame_variables : CodeFrame A → Collected A
  unfolding collect_variables
  frame_variables f =
      if f.locals_are_globals
      then collect_variables false f.f_locals (keys f.f_locals) ([], [])
      else collect_variables true f.f_globals f.co_names (
          collect_variables false f.f_locals (keys f.f_locals)
            (collect_variables false f.f_locals f.co_varnames ([], [])))

  unfoldable pub frame_info : Paths → CodeFrame A → FrameInfo A
  unfolding frame_variables last_line_of
  frame_info p f = record {
    first_line = f.co_firstlineno;
    last_line = last_line_of f.co_firstlineno f.line_table f.span_end;
    line = f.f_lineno;
    name = f.co_name;
    filename = p.abspath f.co_filename;
    arg_count = f.co_argcount;
    variables = (frame_variables f).0;
  }

  unfoldable pub should_send_frame : Paths → Scope → CodeFrame A → Bool
  should_send_frame p scope f =
      not f.is_entrypoint && not (is_in (p.normcase f.co_filename) scope.dont_debug)

  -- From the frame of the thread down
  unfoldable pub get_frame_list : Paths → Scope → List (CodeFrame A) → List (FrameInfo A)
  unfolding frame_info should_send_frame
  get_frame_list p scope [] = []
  get_frame_list p scope (f ∷ frames) =
      let rest = get_frame_list p scope frames in
      if should_send_frame p scope f then frame_info p f ∷ rest else []
