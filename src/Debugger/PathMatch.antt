-- ===== src/Debugger/PathMatch.antt =====
-- `breakpoint_path_match`: is the file that the client names the one that runs here? The file
-- system, the path functions of the platform and `ntpath.split` are the parameters.
use python_vscode.Prelude.{
  ℕ, zero, suc, ◌<◌, ◌≡◌, Bool, true, false, not, ◌||◌, Option, none, some, [], arith, Text, same,
  same_iff, if◌then◌else◌, length, codes, text_eq, Bool-cases, inl, inr, ◌↔◌, ◌≢◌,
}
use python_vscode.Prelude.Dict.{Dict, lookup, insert}

pub record FileSystem : Type 0 where
  pub normcase : Text → Text
  pub split : Text → Text × Text
  pub nt_split : Text → Text × Text
  pub join : Text → Text → Text
  pub exists : Text → Bool
  -- a last component that is not empty shortens the path
  pub split_shorter :
      (path : Text) → same (split path).1 [] ≡ false → length (split path).0 < length path

abbrev pub init_file : Text
init_file = codes "__init__.py"

abbrev is_empty : Text → Bool
is_empty t = same t []

-- `while True` of the walk; the fuel is one more than the length of the local path.
unfoldable pub walk : FileSystem → ℕ → Text → Text → Option Bool
walk fs zero vs_path local_path = none
walk fs (suc fuel) vs_path local_path =
    let (local_dir, local_name) = fs.split local_path in
    let (vs_dir, vs_name) = fs.nt_split vs_path in
    let up = walk fs fuel vs_dir local_dir in
    if is_empty local_name
      || (is_empty vs_name || not (same (fs.normcase local_name) (fs.normcase vs_name)))
    then some false
    else if not (fs.exists (fs.join local_dir init_file))
    then some true
    else up

-- `local_path_to_vs_path`
abbrev pub PathCache : Type 0
PathCache = Dict Text Text

abbrev cached : Option Text → Text → Bool
cached none vs = false
cached (some known) vs = same known vs

abbrev remember : Text → Text → Option Bool → PathCache → Bool × PathCache
remember k v (some true) cache = (true, insert k v cache)
remember k v _ cache = (false, cache)

unfoldable pub breakpoint_path_match : FileSystem → Text → Text → PathCache → Bool × PathCache
unfolding walk
breakpoint_path_match fs vs_path local_path cache =
    if cached (lookup (fs.normcase local_path) cache) (fs.normcase vs_path)
    then (true, cache)
    else remember (fs.normcase local_path) (fs.normcase vs_path)
        (walk fs (suc (length local_path)) vs_path local_path) cache

-- The walk ends: with more fuel than the local path has characters it gives an answer.
walk-ne-none :
    (fs : FileSystem) (fuel : ℕ) (vs_path local_path : Text)
    → length local_path < fuel
    → walk fs fuel vs_path local_path ≢ none
unfolding walk
walk-ne-none fs zero vs_path local_path h = elim h [ ]
walk-ne-none fs (suc fuel) vs_path local_path h = ground (
  arith,
  fs.split_shorter local_path,
  walk-ne-none fs fuel (fs.nt_split vs_path).0 (fs.split local_path).0,
)

-- The specification: the two last names agree, and so on upwards for as long as the local
-- directory is a package.
pub data Agree (fs : FileSystem) : Text → Text → Type 0 where
  top :
      {vs local : Text}
      → fs.normcase (fs.split local).1 ≡ fs.normcase (fs.nt_split vs).1
      → same (fs.split local).1 [] ≡ false
      → same (fs.nt_split vs).1 [] ≡ false
      → fs.exists (fs.join (fs.split local).0 init_file) ≡ false
      → Agree fs vs local
  inside :
      {vs local : Text}
      → fs.normcase (fs.split local).1 ≡ fs.normcase (fs.nt_split vs).1
      → same (fs.split local).1 [] ≡ false
      → same (fs.nt_split vs).1 [] ≡ false
      → fs.exists (fs.join (fs.split local).0 init_file) ≡ true
      → Agree fs (fs.nt_split vs).0 (fs.split local).0
      → Agree fs vs local

Agree-step :
    (fs : FileSystem) (vs local : Text)
    → same (fs.split local).1 [] ≡ false
    → same (fs.nt_split vs).1 [] ≡ false
    → same (fs.normcase (fs.split local).1) (fs.normcase (fs.nt_split vs).1) ≡ true
    → (fs.exists (fs.join (fs.split local).0 init_file) ≡ true
        → Agree fs (fs.nt_split vs).0 (fs.split local).0)
    → Agree fs vs local
Agree-step fs vs local p q r up =
    elim (Bool-cases (fs.exists (fs.join (fs.split local).0 init_file))) [
      | inl e ↦ inside ((same_iff _ _).0 r) p q e (up e)
      | inr e ↦ top ((same_iff _ _).0 r) p q e
    ]

walk_sound :
    (fs : FileSystem) (fuel : ℕ) (vs local : Text)
    → walk fs fuel vs local ≡ some true
    → Agree fs vs local
unfolding walk
walk_sound fs zero vs local h = cc
walk_sound fs (suc fuel) vs local h =
    Agree-step fs vs local (ground arith) (ground arith) (ground arith)
      (λ e. walk_sound fs fuel (fs.nt_split vs).0 (fs.split local).0 (ground arith))

walk_complete :
    (fs : FileSystem) (fuel : ℕ) {vs local : Text}
    → Agree fs vs local
    → length local < fuel
    → walk fs fuel vs local ≡ some true
unfolding walk
walk_complete fs zero a l = elim l [ ]
walk_complete fs (suc fuel) {vs} {local} (top r p q e) l =
    ground (arith, same_iff (fs.normcase (fs.split local).1) (fs.normcase (fs.nt_split vs).1))
walk_complete fs (suc fuel) {vs} {local} (inside r p q e a) l = ground (
  arith,
  same_iff (fs.normcase (fs.split local).1) (fs.normcase (fs.nt_split vs).1),
  walk_complete fs fuel a,
  fs.split_shorter local,
)

-- Of a local path that has no entry in the cache, the answer is yes exactly when the paths agree
-- up to the top of the package; and then, and only then, the pair is put into the cache.
pub breakpoint_path_match_lem :
    (fs : FileSystem) (vs local : Text) (cache : PathCache)
    → lookup (fs.normcase local) cache ≡ none
    → (((breakpoint_path_match fs vs local cache).0 ≡ true) ↔ Agree fs vs local)
      × ((breakpoint_path_match fs vs local cache).1 ≡ (
          if (breakpoint_path_match fs vs local cache).0
          then insert (fs.normcase local) (fs.normcase vs) cache
          else cache))
unfolding breakpoint_path_match
breakpoint_path_match_lem fs vs local cache h = (
  (
    λ e.
        walk_sound fs (suc (length local)) vs local
          (ground (arith, walk-ne-none fs (suc (length local)) vs local)),
    λ a. rw (h, walk_complete fs (suc (length local)) a (omega arith)),
  ),
  ground (arith, walk-ne-none fs (suc (length local)) vs local),
)
