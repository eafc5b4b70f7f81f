-- ===== src/Completion/Paths.antt =====
-- The paths of a request, and `sys.path` over the requests. `sys.path` and `self.default_sys_path` are
-- names of list objects, which live in a store.
pub mod Normal
pub mod Kept
pub mod Above
use python_vscode.Prelude.{
  ℕ, zero, suc, ◌+◌, ◌-◌, Text, Bool, true, false, not, ◌&&◌, ◌||◌, Option, none, some, List, [],
  ◌∷◌, ◌++◌, ltb, leb, ◌==◌, if◌then◌else◌, same, length, get_elem?, take, drop, codes,
}
use python_vscode.Prelude.Texts.{replace, is_in}

-- The store, and which list is which
pub record SysPath : Type 0 where
  pub lists : List (List Text)
  pub sys_path : ℕ
  pub default_sys_path : ℕ

abbrev pub or_nil : Option (List Text) → List Text
or_nil none = []
or_nil (some paths) = paths

-- The value of `sys.path`
abbrev pub current : SysPath → List Text
current s = or_nil (get_elem? s.lists s.sys_path)

abbrev pub insert_new : Text → List Text → List Text
insert_new path paths = if is_in path paths then paths else path ∷ paths

abbrev pub update_at : (List Text → List Text) → ℕ → List (List Text) → List (List Text)
update_at f r [] = []
update_at f zero (l ∷ lists) = f l ∷ lists
update_at f (suc r) (l ∷ lists) = l ∷ update_at f r lists

-- `if path and path not in sys.path: sys.path.insert(0, path)`
unfoldable pub add_path : Text → SysPath → SysPath
add_path path s =
    if same path [] then s else record s { lists = update_at (insert_new path) s.sys_path s.lists }

unfoldable pub add_paths : List Text → SysPath → SysPath
unfolding add_path
add_paths [] s = s
add_paths (p ∷ paths) s = add_paths paths (add_path p s)

-- `self.default_sys_path = sys.path` of a process with these paths
unfoldable pub init_paths : List Text → SysPath
init_paths paths = record { lists = paths ∷ []; sys_path = 0; default_sys_path = 0 }

pub record Config : Type 0 where
  pub use_snippets : Option Bool
  pub show_descriptions : Option Bool
  pub fuzzy_matcher : Option Bool
  pub case_insensitive_completion : Option Bool
  pub extra_paths : Option (List Text)

pub record Settings : Type 0 where
  pub use_snippets : Option Bool
  pub show_doc_strings : Bool
  pub fuzzy_matcher : Bool
  pub case_insensitive_completion : Bool

abbrev pub get_or {ℓ} : {A : Type ℓ} → Option A → A → A
get_or none a = a
get_or (some b) a = b

unfoldable pub set_request_config : Config → SysPath → Settings × SysPath
unfolding add_paths
set_request_config config s = (
  record {
    use_snippets = config.use_snippets;
    show_doc_strings = get_or config.show_descriptions true;
    fuzzy_matcher = get_or config.fuzzy_matcher false;
    case_insensitive_completion = get_or config.case_insensitive_completion true;
  },
  add_paths (get_or config.extra_paths []) (record s { sys_path = s.default_sys_path }),
)

-- `_normalize_request_path`, where `lower` is `str.lower`
unfoldable pub normalize_path : (Text → Text) → Text → Text → Text
normalize_path lower drive_mount path =
    let new_path : Text = replace 92 47 path in
    if same drive_mount []
    then path
    else if same (take 1 new_path) (codes "/")
    then new_path
    else if same (take 1 (drop 1 new_path)) (codes ":")
    then drive_mount ++ (lower (take 1 new_path) ++ drop 2 new_path)
    else new_path

unfoldable pub normalize_request_path : (Text → Text) → Text → Option Text → Option Text
unfolding normalize_path
normalize_request_path lower drive_mount none = none
normalize_request_path lower drive_mount (some path) = some (normalize_path lower drive_mount path)

-- `os.path.split`'s directory, and is there an `__init__.py` in a directory?
pub record FileTree : Type 0 where
  pub dirname : Text → Text
  pub has_init : Text → Bool

-- `_get_top_level_module`; `none` is the RecursionError past the limit.
unfoldable pub get_top_level_module : FileTree → ℕ → Text → Option Text
get_top_level_module t zero path = none
get_top_level_module t (suc limit) path =
    let above = get_top_level_module t limit (t.dirname path) in
    if t.has_init (t.dirname path) then above else some path

-- What a request does to the paths: its configuration, and then its top level module if it has one
unfoldable pub process_paths : Config → Text → SysPath → SysPath
unfolding set_request_config add_path
process_paths config top s = add_path top (set_request_config config s).1

unfoldable pub serve_paths : List (Config × Text) → SysPath → SysPath
unfolding process_paths
serve_paths [] s = s
serve_paths ((config, top) ∷ requests) s = serve_paths requests (process_paths config top s)
