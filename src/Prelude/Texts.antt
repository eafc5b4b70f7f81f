-- ===== src/Prelude/Texts.antt =====
-- Python's operations on texts.
use Prim.Native.Nat.{ℕ, ◌-◌}
use mathlib.Core.Bool.{Bool, true, false, ◌&&◌}
use mathlib.Core.List.{List, [], ◌∷◌, ◌++◌}
use python_vscode.Prelude.Lists.{length, drop}
use python_vscode.Prelude.Tests.{Text, ◌==◌, same, if◌then◌else◌}

-- s.startswith(prefix)
abbrev pub starts_with : Text → Text → Bool
starts_with [] s = true
starts_with (p ∷ prefix) [] = false
starts_with (p ∷ prefix) (c ∷ s) = (p == c) && starts_with prefix s

-- s.endswith(suffix)
abbrev pub ends_with : Text → Text → Bool
ends_with suffix s = same (drop (length s - length suffix) s) suffix

-- s.replace(old, new) for one character
abbrev pub replace : ℕ → ℕ → Text → Text
replace old new [] = []
replace old new (c ∷ s) = (if c == old then new else c) ∷ replace old new s

-- s.replace(old, '') for one character
abbrev pub without : ℕ → Text → Text
without old [] = []
without old (c ∷ s) = let rest = without old s in if c == old then rest else c ∷ rest

-- s.split(sep) for one character, with the first part apart
abbrev pub split : ℕ → Text → Text × List Text
split sep [] = ([], [])
split sep (c ∷ s) =
    let (first, more) = split sep s in if c == sep then ([], first ∷ more) else (c ∷ first, more)

-- sep.join(parts)
abbrev pub join : Text → List Text → Text
join sep [] = []
join sep (p ∷ []) = p
join sep (p ∷ q ∷ parts) = p ++ (sep ++ join sep (q ∷ parts))

-- key in list
abbrev pub is_in : Text → List Text → Bool
is_in t [] = false
is_in t (u ∷ us) = let rest = is_in t us in if same u t then true else rest

-- s.rstrip(), s.lstrip() and s.strip(), where `is_space` is `str.isspace` of a character
module _ (is_space : ℕ → Bool) where
  abbrev pub rstrip : Text → Text
  rstrip [] = []
  rstrip (c ∷ s) = let rest : Text = rstrip s in if is_space c && same rest [] then [] else c ∷ rest

  abbrev pub lstrip : Text → Text
  lstrip [] = []
  lstrip (c ∷ s) = let rest : Text = lstrip s in if is_space c then rest else c ∷ s

  abbrev pub strip : Text → Text
  strip s = lstrip (rstrip s)
