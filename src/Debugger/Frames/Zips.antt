-- ===== src/Debugger/Frames/Zips.antt =====
-- The two sets that remember directories.
use python_vscode.Prelude.{
  ◌≡◌, refl, Text, Bool, true, false, not, List, [], ◌∷◌, if◌then◌else◌, same, same_iff, Bool-cases,
  inl, inr, All, map,
}
use python_vscode.Prelude.Texts.{is_in}
use python_vscode.Debugger.Frames.{Paths, Known, no_known, is_file_in_zip}

-- Is a path a directory, or the empty one, which counts as one?
abbrev pub counts_as_directory : Paths → Text → Bool
counts_as_directory p parent = if same parent [] then true else p.isdir parent

-- The sets hold directories, the empty path with them, and what are none.
abbrev pub IsTrue : Paths → Known → Type 0
IsTrue p k =
    (is_in [] k.directories ≡ true)
    × (All (λ d. counts_as_directory p d ≡ true) k.directories
        × All (λ d. counts_as_directory p d ≡ false) k.zips)

is_in-All :
    (f : Text → Bool) (b : Bool) (t : Text) (texts : List Text)
    → All (λ d. f d ≡ b) texts
    → is_in t texts ≡ true
    → f t ≡ b
is_in-All f b t [] h i = cc
is_in-All f b t (u ∷ texts) h i = elim (Bool-cases (same u t)) [
  | inl e ↦ rw (← (same_iff u t).0 e) h.0
  | inr n ↦ is_in-All f b t texts h.1 (rw n at i)
]

-- The answer that asks the file system each time
abbrev pub is_outside : Paths → Text → Bool
is_outside p filename = not (counts_as_directory p (p.directory (p.abspath filename)))

-- What one question answers and leaves
abbrev pub IsRight : Paths → Text → Bool × Known → Type 0
IsRight p filename (answer, k) = (answer ≡ is_outside p filename) × IsTrue p k

module _ (p : Paths) (k : Known) (h : IsTrue p k) where
  nonempty_of_new : (parent : Text) → is_in parent k.directories ≡ false → same parent [] ≡ false
  nonempty_of_new [] n = cc (h.0)
  nonempty_of_new (c ∷ parent) n = refl

  is_file_in_zip-IsRight : (filename : Text) → IsRight p filename (is_file_in_zip p filename k)
  unfolding is_file_in_zip
  is_file_in_zip-IsRight filename =
      let parent : Text = p.directory (p.abspath filename) in
      elim (Bool-cases (is_in parent k.directories)) [
        | inl d ↦
            rw d (rw (is_in-All (counts_as_directory p) true parent k.directories h.1.0 d) refl, h)
        | inr n ↦ elim (Bool-cases (is_in parent k.zips)) [
          | inl z ↦
              rw (n, z) (rw (is_in-All (counts_as_directory p) false parent k.zips h.1.1 z) refl, h)
          | inr m ↦ elim (Bool-cases (p.isdir parent)) [
            | inl t ↦
                let e : same parent [] ≡ false = nonempty_of_new parent n in
                let q : counts_as_directory p parent ≡ true = rw (e, t) in
                rw (n, m, t) (rw e, (rw e h.0, ((q, h.1.0), h.1.1)))
            | inr f ↦
                let e : same parent [] ≡ false = nonempty_of_new parent n in
                let q : counts_as_directory p parent ≡ false = rw (e, f) in
                rw (n, m, f) (rw e, (h.0, (h.1.0, (q, h.1.1))))
          ]
        ]
      ]

-- The answers for one file after the other
unfoldable pub ask_all : Paths → List Text → Known → List Bool
ask_all p [] k = []
ask_all p (f ∷ files) k = let (answer, k') = is_file_in_zip p f k in answer ∷ ask_all p files k'

ask_all-is_outside :
    (p : Paths) (files : List Text) (k : Known)
    → IsTrue p k
    → ask_all p files k ≡ map (is_outside p) files
unfolding ask_all
ask_all-is_outside p [] k h = refl
ask_all-is_outside p (f ∷ files) k h =
    let right : IsRight p f (is_file_in_zip p f k) = is_file_in_zip-IsRight p k h f in
    rw (right.0, ask_all-is_outside p files (is_file_in_zip p f k).1 right.1)

-- However many files are asked for, from the sets that the debugger starts with, and while the file system
-- stays as it is, the answer for each is whether its directory is neither empty nor a directory of the
-- file system: what the sets remember of one file does not change the answer for another.
pub ask_all-map :
    (p : Paths) (files : List Text) → ask_all p files no_known ≡ map (is_outside p) files
ask_all-map p files = ask_all-is_outside p files no_known (refl, ((refl, tt), tt))
