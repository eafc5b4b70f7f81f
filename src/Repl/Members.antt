-- ===== src/Repl/Members.antt =====
-- The members of a value and the modules: `collect_members`, `get_module_names`, and their messages.
pub mod Collected
use python_vscode.Prelude.{
  ℕ, Text, Bool, true, false, not, ◌&&◌, ◌||◌, Option, none, some, List, [], ◌∷◌, ◌++◌,
  if◌then◌else◌, codes, length, same, text_eq,
}
use python_vscode.Prelude.Dict.{Dict, insert, has}
use python_vscode.Prelude.Int.{pos}
use python_vscode.Debugger.Reports.{Field, raw, int, text, text_or_none}

-- The name of the type, the instance members and the type members, with the names of their types; None is a
-- type whose name cannot be had.
abbrev pub Members : Type 0
Members = Text × Dict Text (Option Text) × Dict Text (Option Text)

-- What is asked of a value: the name of its type, none where that raises; the names in its `__dict__`, none
-- where it has none, up to where reading them raises; `dir` of it; and, for a name, what
-- `inst.__dict__[name]`, `getattr(type(inst), name)` and `getattr(inst, name)` give: none where they raise,
-- and otherwise the name of the type, none where that raises.
pub record Value : Type 0 where
  pub type_name : Option Text
  pub dict_names : Option (List Text)
  pub dir_names : List Text
  pub in_dict : Text → Option (Option Text)
  pub on_type : Text → Option (Option Text)
  pub on_value : Text → Option (Option Text)

abbrev pub or_none : Option (Option Text) → Option Text
or_none none = none
or_none (some t) = t

-- `_get_member_type`, for a value of a new-style class
unfoldable pub get_member_type : Value → Text → Bool → Option Text
get_member_type v name true = or_none (v.in_dict name)
get_member_type v name false = elim (v.on_type name) [
  | none ↦ or_none (v.on_value name)
  | some t ↦ t
]

abbrev pub insert_type : Text → Option Text → Dict Text (Option Text) → Dict Text (Option Text)
insert_type name none members = members
insert_type name (some t) members = insert name (some t) members

-- The loop over the names of `__dict__`
unfoldable pub instance_members :
    Value → List Text → Dict Text (Option Text) → Dict Text (Option Text)
unfolding get_member_type
instance_members v [] members = members
instance_members v (name ∷ names) members =
    instance_members v names (insert_type name (get_member_type v name true) members)

-- The loop over `dir`, beside the instance members
unfoldable pub type_members :
    Value → Dict Text (Option Text) → List Text → Dict Text (Option Text) → Dict Text (Option Text)
unfolding get_member_type
type_members v instance [] members = members
type_members v instance (name ∷ names) members =
    type_members v instance names (
      if has name instance
      then members
      else insert_type name (get_member_type v name false) members)

abbrev pub names_of : Option (List Text) → List Text
names_of none = []
names_of (some names) = names

abbrev pub collected : Value → Dict Text (Option Text) × Dict Text (Option Text)
collected v =
    let instance = instance_members v (names_of v.dict_names) [] in
    (instance, type_members v instance v.dir_names [])

unfoldable pub collect_members : Value → Option Members
unfolding instance_members type_members
collect_members v = elim v.type_name [
  | none ↦ none
  | some name ↦ some (name, (collected v).0, (collected v).1)
]

-- The globals and then the locals of a frame, or the names of a module and no locals, each with the name of
-- its type
unfoldable pub all_members :
    List (Text × Option Text) → Dict Text (Option Text) → Dict Text (Option Text)
all_members [] members = members
all_members ((key, t) ∷ items) members = all_members items (insert key t members)

-- `get_members` of no expression
unfoldable pub get_all_members : List (Text × Option Text) → List (Text × Option Text) → Members
unfolding all_members
get_all_members globals locals = ([], all_members locals (all_members globals []), [])

-- `_write_member_dict`
abbrev pub entries : Dict Text (Option Text) → List Field
entries [] = []
entries ((name, type_name) ∷ members) = text name ∷ text_or_none type_name ∷ entries members

unfoldable pub write_member_dict : Dict Text (Option Text) → List Field
write_member_dict members = int (pos (length members)) ∷ entries members

unfoldable pub members_result : Members → List Field
members_result (name, instance, types) =
    raw (codes "MRES") ∷ text name ∷ (write_member_dict instance ++ write_member_dict types)

unfoldable pub members_error : List Field
members_error = raw (codes "MERR") ∷ []

-- A module with its file, where it has one
abbrev pub ModuleName : Type 0
ModuleName = Text × Option Text

-- `get_module_names` on CPython, of the items of `sys.modules`
unfoldable pub get_module_names : List ModuleName → List ModuleName
get_module_names [] = []
get_module_names ((name, filename) ∷ modules) =
    let rest = get_module_names modules in
    if not (same name (codes "visualstudio_py_repl"))
      && not (same name (codes "$visualstudio_py_debugger"))
    then (name, filename) ∷ rest
    else rest

abbrev pub sorted_names :
    (List ModuleName → List ModuleName) → Option (List ModuleName) → List ModuleName
sorted_names sort none = []
sorted_names sort (some modules) = sort (get_module_names modules)

-- `_cmd_mods`, of the items of `sys.modules`, none where reading them raises, with the `sort` of lists
unfoldable pub modules_result :
    (List ModuleName → List ModuleName) → Option (List ModuleName) → List Field
unfolding get_module_names
modules_result sort modules =
    let res = sorted_names sort modules in raw (codes "MODS") ∷ int (pos (length res)) ∷ entries res
