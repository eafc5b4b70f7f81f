-- ===== src/Completion/Definitions.antt =====
-- The definitions of a symbol, their ranges, tooltips and usages. What `str` knows of characters, and
-- parso's `split_lines`, are parameters.
pub mod Ranges
pub mod Agree
use python_vscode.Prelude.{
  ℕ, zero, suc, ◌+◌, ◌-◌, Text, Bool, true, false, not, ◌&&◌, ◌||◌, Option, none, some, List, [],
  ◌∷◌, ◌++◌, ◌==◌, if◌then◌else◌, same, drop, codes, map, length,
}
use python_vscode.Prelude.Int.{ℤ, pos, pred_ℤ, add_ℕ}
use python_vscode.Prelude.Texts.{split, join, rstrip, strip}
use python_vscode.Prelude.Options.{◌>>=◌}
use python_vscode.Completion.Jedi.{Parent, Position, Tree, Definition, Jedi, Usage}
use python_vscode.Completion.Signatures.{generate_signature, docstrings, or_blank}
use python_vscode.Completion.Items.{get_definition_type}

-- The loop of `_top_definition` of `d`; `above` is the recursive call.
unfoldable pub top_of : Jedi → (ℕ → Option ℕ) → ℕ → List ℕ → Option ℕ
top_of j above d [] = some d
top_of j above d (e ∷ ds) =
    let rest = top_of j above d ds in
    if e == d then rest else if same (j.definition e).kind (codes "import") then above e else some e

-- `none` is an exception, of `goto_assignments` or the RecursionError past the limit.
unfoldable pub top_definition : Jedi → ℕ → ℕ → Option ℕ
unfolding top_of
top_definition j zero d = none
top_definition j (suc limit) d =
    let above = top_definition j limit in
    elim (j.goto d) [ none ↦ none | some ds ↦ top_of j above d ds ]

pub record Range : Type 0 where
  pub start_line : ℤ
  pub start_column : Option ℤ
  pub end_line : ℤ
  pub end_column : Option ℤ

abbrev pub no_range : Range
no_range = record {
  start_line = pos 0;
  start_column = some (pos 0);
  end_line = pos 0;
  end_column = some (pos 0);
}

abbrev pub is_scope : Text → Bool
is_scope kind = same kind (codes "class") || same kind (codes "function")

-- `len(lines[-1]) - 1`
abbrev pub last_column : Text × List Text → ℤ
last_column (line, []) = pred_ℤ (pos (length line))
last_column (line, next ∷ more) = last_column (next, more)

abbrev pub column_of : Option ℕ → Option ℤ
column_of none = none
column_of (some n) = some (pos n)

-- The fields of an answer; `signature` is none where the answer has no such field.
pub record Answer : Type 0 where
  pub text : Text
  pub kind : Text
  pub raw_kind : Text
  pub file_name : Text
  pub container : Text
  pub range : Range
  pub description : Text
  pub docstring : Text
  pub raw_docstring : Text
  pub signature : Option Text

pub record Tooltip : Type 0 where
  pub kind : Text
  pub text : Text
  pub description : Option Text
  pub docstring : Option Text
  pub signature : Text

abbrev pub container_of : Option Parent → Text
container_of none = []
container_of (some p) = if same p.kind (codes "module") then [] else p.name

abbrev pub line_range : Option ℕ → Option ℕ → Option Range
line_range none column = none
line_range (some line) column = some (record {
  start_line = pred_ℤ (pos line);
  start_column = column_of column;
  end_line = pred_ℤ (pos line);
  end_column = column_of column;
})

-- The definition that is described: that of an import is looked up.
unfoldable pub resolved : Jedi → ℕ → ℕ → Option ℕ
resolved j limit d =
    let top = top_definition j limit d in
    if same (j.definition d).kind (codes "import") then top else some d

abbrev pub find : Jedi → Option ℕ → Option Definition
find j none = none
find j (some d) = some (j.definition d)

abbrev pub prepend : Option Answer → List Answer → List Answer
prepend none answers = answers
prepend (some a) answers = a ∷ answers

unfoldable pub tooltip_signature : Definition → Text
tooltip_signature d =
    if is_scope d.kind
    then generate_signature d.kind d.name d.params
    else if same d.kind (codes "module")
    then d.full_name
    else d.name

module _ (split_lines : Text → List Text) (is_space : ℕ → Bool) where
  unfoldable pub tree_range : Text → Tree → Range
  tree_range kind t =
      let first : ℤ = pred_ℤ (pos t.start.line) in
      let lines : Text × List Text =
        split 10 (rstrip is_space (join (10 ∷ []) (split_lines t.code))) in
      if is_scope kind
      then record {
        start_line = first;
        start_column = some (pos t.start.column);
        end_line = add_ℕ first (length lines.1);
        end_column = some (last_column lines);
      }
      else record {
        start_line = first;
        start_column = some (pos t.start.column);
        end_line = pred_ℤ (pos t.stop.line);
        end_column = some (pos t.stop.column);
      }

  -- `none` is the TypeError of `None - 1` in the handler.
  unfoldable pub extract_range : Definition → Option Range
  unfolding tree_range
  extract_range d = elim d.tree [
    | some t ↦ some (tree_range d.kind t)
    | none ↦ line_range d.line d.column
  ]

  module _ (lower : Text → Text) (is_upper : Text → Bool) where
    abbrev pub answer : Text → Range → Option Text → Definition → Answer
    answer file_name range signature d =
        let docs : Text × Text = docstrings d.docstring d.raw_docstring in
        record {
          text = d.name;
          kind = get_definition_type lower is_upper d.kind d.name;
          raw_kind = d.kind;
          file_name = file_name;
          container = container_of d.parent;
          range = range;
          description = d.description;
          docstring = docs.0;
          raw_docstring = docs.1;
          signature = signature;
        }

    abbrev pub ranged : Option Text → Definition → Option Range → Option Answer
    ranged signature d none = none
    ranged signature d (some range) = some (answer d.module_path range signature d)

    -- One turn of the loop of `_get_definitionsx`, none where it continues or raises
    abbrev pub describe : Bool → Option Definition → Option Answer
    describe ignore none = none
    describe ignore (some d) =
        let signature : Text = generate_signature d.kind d.name d.params in
        if not (same d.module_path [])
        then ranged (some signature) d (extract_range d)
        else if not ignore
        then none
        else some (answer [] no_range (some signature) d)

    unfoldable pub get_definitionsx : Jedi → ℕ → Bool → List ℕ → List Answer
    unfolding resolved
    get_definitionsx j limit ignore [] = []
    get_definitionsx j limit ignore (d ∷ ds) =
        prepend (describe ignore (find j (resolved j limit d))) (get_definitionsx j limit ignore ds)

    abbrev pub describe_placed : Option Definition → Option Answer
    describe_placed none = none
    describe_placed (some d) =
        if same d.module_path [] then none else ranged none d (extract_range d)

    unfoldable pub serialize_definitions : Jedi → ℕ → List ℕ → List Answer
    unfolding resolved
    serialize_definitions j limit [] = []
    serialize_definitions j limit (d ∷ ds) =
        let placed : Option Answer = describe_placed (find j (resolved j limit d)) in
        prepend (if same (j.definition d).module_path [] then none else placed)
          (serialize_definitions j limit ds)

    abbrev pub strip_docstring : Option Text → Option (Option Text)
    strip_docstring none = none
    strip_docstring (some t) = some (some (strip is_space t))

    -- The description that is read again, where it is empty; `none` is an exception.
    abbrev pub reread : Bool → Definition → Option (Option Text)
    reread wanted d =
        let description : Text = strip is_space (or_blank d.raw_docstring) in
        if same description [] && wanted
        then strip_docstring d.docstring
        else some (some description)

    unfoldable pub tooltip_description : Definition → Option (Option Text)
    tooltip_description d =
        if is_scope d.kind
        then reread (not d.has_line_code) d
        else if same d.kind (codes "module")
        then reread d.has_line_code d
        else some none

    abbrev pub add_tooltip : Option Text → Definition → List Tooltip → Option (List Tooltip)
    add_tooltip description d rest = some (
        record {
          kind = get_definition_type lower is_upper d.kind d.name;
          text = d.name;
          description = description;
          docstring = description;
          signature = tooltip_signature d;
        }
        ∷ rest)

    unfoldable pub serialize_tooltip : List Definition → Option (List Tooltip)
    unfolding tooltip_description tooltip_signature
    serialize_tooltip [] = some []
    serialize_tooltip (d ∷ ds) = do
      description ← tooltip_description d
      rest ← serialize_tooltip ds
      add_tooltip description d rest

pub record UsageItem : Type 0 where
  pub name : Text
  pub module_name : Text
  pub file_name : Text
  pub line : ℕ
  pub column : ℕ

unfoldable pub serialize_usages : List Usage → List UsageItem
serialize_usages [] = []
serialize_usages (u ∷ usages) =
    record {
      name = u.name;
      module_name = u.module_name;
      file_name = u.module_path;
      line = u.line;
      column = u.column;
    }
    ∷ serialize_usages usages
