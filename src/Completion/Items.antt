-- ===== src/Completion/Items.antt =====
-- The completions at a place: `_serialize_completions` and `_serialize_methods`.
pub mod Distinct
use python_vscode.Prelude.{
  ℕ, zero, suc, ◌+◌, Text, Bool, true, false, not, ◌&&◌, ◌||◌, Option, none, some, List, [], ◌∷◌,
  ◌++◌, ◌==◌, if◌then◌else◌, same, drop, codes, map,
}
use python_vscode.Prelude.Texts.{starts_with, split, without, is_in}
use python_vscode.Completion.{Attempt, returned, key_error, other_error}
use python_vscode.Completion.Jedi.{Param, Signature, Completion, Parent}
use python_vscode.Completion.Signatures.{get_call_signatures}

-- An entry of the results; the arguments of a call have a snippet and two empty descriptions.
pub record Item : Type 0 where
  pub text : Text
  pub kind : Text
  pub raw_kind : Text
  pub right_label : Text
  pub description : Option Text
  pub raw_docstring : Option Text
  pub snippet : Option Text
  pub display_text : Option Text

-- `basic_types.get(definition.type, definition.type)`
abbrev pub basic_type : Text → Text
basic_type kind =
    if same kind (codes "module")
    then codes "import"
    else if same kind (codes "instance")
    then codes "variable"
    else if same kind (codes "statement")
    then codes "value"
    else if same kind (codes "param")
    then codes "variable"
    else kind

abbrev pub shown_nodes : List Text
shown_nodes =
    codes "InstanceElement" ∷ codes "String" ∷ codes "Node" ∷ codes "Lambda" ∷ codes "Number" ∷ []

abbrev pub shown_code : List (Text × Text) → Text
shown_code [] = []
shown_code ((node, code) ∷ children) =
    let rest = shown_code children in if is_in node shown_nodes then code ++ rest else rest

-- `_additional_info`, of the type and the children of the `_definition`
unfoldable pub additional_info : Text → Option (List (Text × Text)) → Text
additional_info kind none = []
additional_info kind (some children) =
    if same kind (codes "statement") then without 10 (shown_code children) else []

-- The entries with the text of the new one take its types.
unfoldable pub retype : Item → List Item → List Item
retype new [] = []
retype new (c ∷ items) =
    (if same c.text new.text then record c { kind = new.kind; raw_kind = new.raw_kind } else c)
    ∷ retype new items

-- `c['text'].split('=')[0]`
abbrev pub key : Item → Text
key c = (split 61 c.text).0

unfoldable pub has_key : Text → List Item → Bool
has_key t [] = false
has_key t (c ∷ items) = let rest = has_key t items in if same (key c) t then true else rest

unfoldable pub add_completion : Item → List Item → List Item
unfolding retype has_key
add_completion new items =
    let items' : List Item = retype new items in
    if has_key new.text items' then items' else items' ++ new ∷ []

abbrev pub or_none : Attempt (List (Option Completion)) → List (Option Completion)
or_none (returned completions) = completions
or_none key_error = []
or_none other_error = []

module _ (lower : Text → Text) (is_upper : Text → Bool) where
  unfoldable pub get_definition_type : Text → Text → Text
  get_definition_type kind name =
      if same kind (codes "statement") && is_upper name then codes "constant" else basic_type kind

  unfoldable pub argument_item : Signature × Text × Option Text → Item
  unfolding additional_info
  argument_item (s, name, value) =
      let plain = same (elim value [ none ↦ [] | some v ↦ v ]) [] in
      record {
        text = if plain then name else name ++ codes "=";
        kind = codes "property";
        raw_kind = [];
        right_label = additional_info s.kind s.children;
        description = some [];
        raw_docstring = some [];
        snippet = some (
            if plain
            then name ++ codes "=$1$0"
            else name ++ (codes "=${1:" ++ (elim value [ none ↦ [] | some v ↦ v ] ++ codes "}$0")));
        display_text = if plain then some name else none;
      }

  -- The arguments that the prefix leaves, all of them under the fuzzy matcher
  unfoldable pub argument_items : Bool → Text → List (Signature × Text × Option Text) → List Item
  unfolding argument_item
  argument_items fuzzy prefix [] = []
  argument_items fuzzy prefix ((s, name, value) ∷ args) =
      let rest = argument_items fuzzy prefix args in
      if not fuzzy && not (starts_with (lower prefix) (lower name))
      then rest
      else argument_item (s, name, value) ∷ rest

  unfoldable pub completion_item : Completion → Item
  unfolding get_definition_type additional_info
  completion_item c = record {
    text = c.name;
    kind = get_definition_type c.kind c.name;
    raw_kind = c.kind;
    right_label = additional_info c.kind c.children;
    description = none;
    raw_docstring = none;
    snippet = none;
    display_text = none;
  }

  -- The loop over the completions; none is one that raises.
  unfoldable pub add_completions : List (Option Completion) → List Item → List Item
  unfolding add_completion completion_item
  add_completions [] items = items
  add_completions (none ∷ completions) items = add_completions completions items
  add_completions (some c ∷ completions) items =
      add_completions completions (add_completion (completion_item c) items)

  unfoldable pub serialize_completions :
      Bool → Text → Attempt (List Signature) → Attempt (List (Option Completion)) → List Item
  unfolding argument_items add_completions get_call_signatures
  serialize_completions fuzzy prefix signatures completions =
      add_completions (or_none completions)
        (argument_items fuzzy prefix (get_call_signatures signatures))

pub record Method : Type 0 where
  pub parent : Text
  pub instance_name : Text
  pub name : Text
  pub params : List Text
  pub module_name : Text
  pub file_name : Text
  pub line : ℕ
  pub column : ℕ

-- `for … else`: the parent of the first completion with the marker's name
unfoldable pub instance_of : List Completion → Text
instance_of [] = codes "self.__class__"
instance_of (c ∷ completions) =
    let rest = instance_of completions in
    if same c.name (codes "__autocomplete_python") then c.parent.name else rest

abbrev pub descriptions : Option (List Param) → List Text
descriptions none = []
descriptions (some params) = map (λ p. p.description) params

unfoldable pub methods : Text → List Completion → List Method
methods inst [] = []
methods inst (c ∷ completions) =
    let rest = methods inst completions in
    if same c.parent.kind (codes "class")
    then record {
      parent = c.parent.name;
      instance_name = inst;
      name = c.name;
      params = descriptions c.params;
      module_name = c.module_name;
      file_name = c.module_path;
      line = c.line;
      column = c.column;
    }
      ∷ rest
    else rest

-- A KeyError returns a list in place of the text of a response.
pub data Methods : Type 0 where
  response : List Method → Methods
  bare_list : Methods

unfoldable pub serialize_methods : Attempt (List Completion) → Attempt Methods
unfolding instance_of methods
serialize_methods (returned completions) =
    returned (response (methods (instance_of completions) completions))
serialize_methods key_error = returned bare_list
serialize_methods other_error = other_error
