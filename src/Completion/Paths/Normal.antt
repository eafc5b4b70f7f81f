-- ===== src/Completion/Paths/Normal.antt =====
-- Paths that are normalized twice.
use python_vscode.Prelude.{
  ℕ, zero, suc, ◌≡◌, refl, ap, ◌∙◌, Text, Bool, true, false, [], ◌∷◌, ◌++◌, ◌==◌, if◌then◌else◌,
  same, take, drop, codes, arith, Bool-cases, inl, inr,
}
use python_vscode.Prelude.Texts.{replace}
use python_vscode.Completion.Paths.{normalize_path}

-- No backslash is in the text.
abbrev pub IsClean : Text → Type 0
IsClean [] = Unit
IsClean (c ∷ s) = ((c == 92) ≡ false) × IsClean s

replace-IsClean : (s : Text) → IsClean (replace 92 47 s)
replace-IsClean [] = tt
replace-IsClean (c ∷ s) = (ground arith, replace-IsClean s)

replace-eq_of_clean : (s : Text) → IsClean s → replace 92 47 s ≡ s
replace-eq_of_clean [] h = refl
replace-eq_of_clean (c ∷ s) h = rw (h.0, replace-eq_of_clean s h.1)

append-IsClean : (s t : Text) → IsClean s → IsClean t → IsClean (s ++ t)
append-IsClean [] t h k = k
append-IsClean (c ∷ s) t h k = (h.0, append-IsClean s t h.1 k)

take-IsClean : (n : ℕ) (s : Text) → IsClean s → IsClean (take n s)
take-IsClean zero s h = tt
take-IsClean (suc n) [] h = tt
take-IsClean (suc n) (c ∷ s) h = (h.0, take-IsClean n s h.1)

drop-IsClean : (n : ℕ) (s : Text) → IsClean s → IsClean (drop n s)
drop-IsClean zero s h = h
drop-IsClean (suc n) [] h = tt
drop-IsClean (suc n) (c ∷ s) h = drop-IsClean n s h.1

if-IsClean : (b : Bool) (s t : Text) → IsClean s → IsClean t → IsClean (if b then s else t)
if-IsClean true s t h k = h
if-IsClean false s t h k = k

take-append_one :
    (s t : Text) → same (take 1 s) (codes "/") ≡ true → same (take 1 (s ++ t)) (codes "/") ≡ true
take-append_one [] t h = cc
take-append_one (c ∷ s) t h = h

mount_of : (mount : Text) → same (take 1 mount) (codes "/") ≡ true → same mount [] ≡ false
mount_of [] m = cc
mount_of (c ∷ s) m = refl

module _ (lower : Text → Text) (mount : Text) where
  -- What is done once the backslashes are out
  abbrev mapped : Text → Text
  mapped path =
      if same (take 1 path) (codes "/")
      then path
      else if same (take 1 (drop 1 path)) (codes ":")
      then mount ++ (lower (take 1 path) ++ drop 2 path)
      else path

  mapped-mapped :
      (path : Text) → same (take 1 mount) (codes "/") ≡ true → mapped (mapped path) ≡ mapped path
  mapped-mapped path m = elim (Bool-cases (same (take 1 path) (codes "/"))) [
    | inl absolute ↦ rw (absolute, absolute)
    | inr relative ↦ elim (Bool-cases (same (take 1 (drop 1 path)) (codes ":"))) [
      | inl drive ↦
          rw (relative, drive) (rw (take-append_one mount (lower (take 1 path) ++ drop 2 path) m))
      | inr plain ↦ rw (relative, plain, relative, plain)
    ]
  ]

  module _ (clean : (t : Text) → IsClean t → IsClean (lower t)) where
    mapped-IsClean : (path : Text) → IsClean mount → IsClean path → IsClean (mapped path)
    mapped-IsClean path m h = if-IsClean (same (take 1 path) (codes "/")) path _ h (
        if-IsClean (same (take 1 (drop 1 path)) (codes ":"))
          (mount ++ (lower (take 1 path) ++ drop 2 path)) path
          (append-IsClean mount _ m (
            append-IsClean (lower (take 1 path)) _ (clean (take 1 path) (take-IsClean 1 path h))
              (drop-IsClean 2 path h)))
          h)

    -- If there is a mount point, which is an absolute path without a backslash, and `lower` makes no
    -- backslash, then a normalized path has no backslash, and a second normalization leaves it alone.
    pub normalize_path-normalize_path :
        (path : Text)
        → same (take 1 mount) (codes "/") ≡ true
        → IsClean mount
        → IsClean (normalize_path lower mount path)
          × (normalize_path lower mount (normalize_path lower mount path)
              ≡ normalize_path lower mount path)
    unfolding normalize_path
    normalize_path-normalize_path path m k =
        let c : IsClean (mapped (replace 92 47 path)) =
          mapped-IsClean (replace 92 47 path) k (replace-IsClean path) in
        let some_mount : same mount [] ≡ false = mount_of mount m in
        rw some_mount (
          c,
          ap mapped (replace-eq_of_clean (mapped (replace 92 47 path)) c)
              ∙ mapped-mapped (replace 92 47 path) m,
        )
