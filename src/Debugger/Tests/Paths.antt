-- ===== src/Debugger/Tests/Paths.antt =====
-- Paths with a slash on both sides, where a directory that is named "p" is a package.
use python_vscode.Prelude.{
  ℕ, suc, ◌+◌, ◌≤◌, ◌<◌, ◌≡◌, refl, Bool, true, false, [], ◌∷◌, ◌++◌, Text, arith, if◌then◌else◌,
  codes, length, same, text_eq, ◌==◌, ◌↔◌, Bool-cases, inl, inr,
}
use python_vscode.Prelude.Dict.{insert, lookup}
use python_vscode.Debugger.PathMatch.{
  FileSystem, Agree, breakpoint_path_match, breakpoint_path_match_lem,
}

-- The path before its last slash, if it has one, and the name after it.
abbrev Parts : Type 0
Parts = Bool × Text × Text

abbrev one_more : ℕ → Parts → Parts
one_more c (true, dir, name) = (true, c ∷ dir, name)
one_more c (false, dir, name) = if c == 47 then (true, [], name) else (false, [], c ∷ name)

abbrev parts : Text → Parts
parts [] = (false, [], [])
parts (c ∷ s) = one_more c (parts s)

abbrev size : Parts → ℕ
size (slash, dir, name) = length dir + length name

size-one_more : (c : ℕ) (p : Parts) → size (one_more c p) ≤ suc (size p)
size-one_more c (true, dir, name) = omega arith
size-one_more c (false, dir, name) = elim (Bool-cases (c == 47)) [
  | inl slash ↦ rw slash (omega arith)
  | inr other ↦ rw other (omega arith)
]

size-parts : (s : Text) → size (parts s) ≤ length s
size-parts [] = omega arith
size-parts (c ∷ s) = omega (arith, size-parts s, size-one_more c (parts s))

parts-shorter : (s : Text) → same (parts s).2 [] ≡ false → length (parts s).1 < length s
parts-shorter s h = go (parts s) (size-parts s) h
  where
    go : (p : Parts) → size p ≤ length s → same p.2 [] ≡ false → length p.1 < length s
    go (slash, dir, []) l h = absurd (ground arith)
    go (slash, dir, c ∷ name) l h = omega arith

abbrev files : FileSystem
files = record {
  normcase = λ t. t;
  split = λ t. ((parts t).1, (parts t).2);
  nt_split = λ t. ((parts t).1, (parts t).2);
  join = λ dir name. dir ++ (47 ∷ name);
  exists = λ t. same t (codes "/home/p/__init__.py");
  split_shorter = parts-shorter;
}

abbrev mine : Text
mine = codes "/home/p/a.py"

abbrev theirs : Text
theirs = codes "C:/work/p/a.py"

breakpoint_path_match_lem_example :
    (((breakpoint_path_match files theirs mine []).0 ≡ true) ↔ Agree files theirs mine)
    × ((breakpoint_path_match files theirs mine []).1
        ≡ (if (breakpoint_path_match files theirs mine []).0 then insert mine theirs [] else []))
breakpoint_path_match_lem_example =
    breakpoint_path_match_lem files theirs mine [] (unfold lookup in refl)

paths_match : (breakpoint_path_match files theirs mine []).0 ≡ true
unfolding breakpoint_path_match lookup
paths_match = refl
