-- ===== src/Refactor/Diff.antt =====
-- The texts that are compared.
use python_vscode.Prelude.{
  ℕ, ◌≡◌, refl, sym, ap, subst, ◌∙◌, Text, true, false, not, ◌&&◌, none, some, if◌then◌else◌, arith,
  List, [], ◌∷◌, ◌++◌, append-nil, append_assoc, ◌==◌, Bool-cases, inl, inr, ◌⊎◌,
}
use python_vscode.Refactor.{
  splitlines, attach, is_break, is_newline_next, ends_with_newline, added_end, extend_last, concat,
  Platform, compared,
}

concat-attach : (c : ℕ) (lines : List Text) → concat (attach c lines) ≡ c ∷ concat lines
concat-attach c [] = refl
concat-attach c (l ∷ lines) = refl

concat-splitlines : (s : Text) → concat (splitlines s) ≡ s
unfolding splitlines
concat-splitlines [] = refl
concat-splitlines (c ∷ s) = elim (Bool-cases (is_break c && not (c == 13 && is_newline_next s))) [
  | inl b ↦ rw (b, concat-splitlines s)
  | inr n ↦ rw (n, concat-attach c (splitlines s), concat-splitlines s)
]

concat-extend_last :
    (end l : Text) (lines : List Text)
    → concat (extend_last end (l ∷ lines)) ≡ concat (l ∷ lines) ++ end
unfolding extend_last
concat-extend_last end l [] = rw (append-nil (l ++ end), append-nil l)
concat-extend_last end l (m ∷ lines) =
    ap (λ s. l ++ s) (concat-extend_last end m lines)
    ∙ sym (append_assoc l (concat (m ∷ lines)) end)

-- The text ends with a newline.
abbrev pub EndsWithNewline : Text → Type 0
EndsWithNewline s = (before : Text) × (s ≡ before ++ (10 ∷ []))

-- The end that is added to a text: nothing if it ends with a newline, and the separator if it does not
abbrev pub IsEnd : Text → Text → Text → Type 0
IsEnd linesep old end =
    (EndsWithNewline old × (end ≡ [])) ⊎ ((¬ (EndsWithNewline old)) × (end ≡ linesep))

ends_with_newline-append : (before : Text) → ends_with_newline (before ++ (10 ∷ [])) ≡ true
ends_with_newline-append [] = refl
ends_with_newline-append (c ∷ []) = refl
ends_with_newline-append (c ∷ d ∷ before) = ends_with_newline-append (d ∷ before)

ends_with_newline-EndsWithNewline : (s : Text) → ends_with_newline s ≡ true → EndsWithNewline s
ends_with_newline-EndsWithNewline [] h = absurd (cc)
ends_with_newline-EndsWithNewline (c ∷ []) h = let e : c ≡ 10 = ground (arith, h) in ([], rw e)
ends_with_newline-EndsWithNewline (c ∷ d ∷ s) h =
    let (before, e) = ends_with_newline-EndsWithNewline (d ∷ s) h in (c ∷ before, ap (λ r. c ∷ r) e)

-- The first line starts as the text does, so it is not empty.
splitlines-first :
    (c : ℕ) (s : Text) → (l : Text) × ((lines : List Text) × (splitlines (c ∷ s) ≡ (c ∷ l) ∷ lines))
unfolding splitlines
splitlines-first c s = elim (Bool-cases (is_break c && not (c == 13 && is_newline_next s))) [
  | inl b ↦ ([], (splitlines s, rw b))
  | inr n ↦ attached (splitlines s) (rw n)
]
  where
    attached :
        (rest : List Text)
        → splitlines (c ∷ s) ≡ attach c rest
        → (l : Text) × ((lines : List Text) × (splitlines (c ∷ s) ≡ (c ∷ l) ∷ lines))
    attached [] e = ([], ([], e))
    attached (l ∷ lines) e = (l, (lines, e))

added_end-attach :
    (linesep l : Text) (c d : ℕ) (lines : List Text)
    → added_end linesep (attach c ((d ∷ l) ∷ lines)) ≡ added_end linesep ((d ∷ l) ∷ lines)
unfolding added_end
added_end-attach linesep l c d [] = refl
added_end-attach linesep l c d (m ∷ lines) = refl

splitlines-cons :
    (c : ℕ) (s : Text)
    → splitlines (c ∷ s) ≡ (
        if is_break c && not (c == 13 && is_newline_next s)
        then (c ∷ []) ∷ splitlines s
        else attach c (splitlines s))
unfolding splitlines
splitlines-cons c s = refl

splitlines_one : (c : ℕ) → splitlines (c ∷ []) ≡ (c ∷ []) ∷ []
unfolding splitlines
splitlines_one c = elim (Bool-cases (is_break c && not (c == 13 && false))) [
  | inl b ↦ rw b
  | inr n ↦ rw n
]

-- The end of the last line is the end of the text.
added_end-splitlines :
    (linesep : Text) (c : ℕ) (s : Text)
    → added_end linesep (splitlines (c ∷ s))
      ≡ some (if ends_with_newline (c ∷ s) then [] else linesep)
unfolding added_end
added_end-splitlines linesep c [] = rw (splitlines_one c) refl
added_end-splitlines linesep c (d ∷ s) =
    let (l, (lines, e)) = splitlines-first d s in
    let end : Text = if ends_with_newline (d ∷ s) then [] else linesep in
    let more : added_end linesep ((d ∷ l) ∷ lines) ≡ some end =
      subst (λ r. added_end linesep r ≡ some end) e (added_end-splitlines linesep d s) in
    rw (splitlines-cons c (d ∷ s), e)
      (elim (Bool-cases (is_break c && not (c == 13 && is_newline_next (d ∷ s)))) [
        | inl b ↦ rw b more
        | inr n ↦ rw n (added_end-attach linesep l c d lines ∙ more)
      ])

-- The lines are those of the old text and of the new one, each followed by the same end.
abbrev pub AreCompared : Platform → Text → Text → List Text × List Text → Type 0
AreCompared p old text lines =
    (end : Text) × (IsEnd p.linesep old end
      × ((concat (lines.0) ≡ old ++ end) × (concat (lines.1) ≡ text ++ end)))

is_end : (linesep old : Text) → IsEnd linesep old (if ends_with_newline old then [] else linesep)
is_end linesep old = elim (Bool-cases (ends_with_newline old)) [
  | inl e ↦ rw e (inl (ends_with_newline-EndsWithNewline old e, refl))
  | inr n ↦ rw n (
      inr (
        λ (before, q).
            let t : ends_with_newline old ≡ true = rw q (ends_with_newline-append before) in cc,
        refl,
      ))
]

-- Of a text that is not empty, the comparison returns.
compared_lem :
    (p : Platform) (c : ℕ) (s text : Text)
    → (both : List Text × List Text) × ((compared p (c ∷ s) text ≡ some both)
        × AreCompared p (c ∷ s) text both)
compared_lem p c s text =
    let end : Text = if ends_with_newline (c ∷ s) then [] else p.linesep in
    let (l, (lines, h)) = splitlines-first c s in
    (
      (extend_last end (splitlines (c ∷ s)), splitlines (text ++ end)),
      (
        unfold compared in rw (added_end-splitlines p.linesep c s),
        (
          end,
          (
            is_end p.linesep (c ∷ s),
            (
              rw h (concat-extend_last end (c ∷ l) lines)
                  ∙ ap (λ s. s ++ end) (ap concat (sym h) ∙ concat-splitlines (c ∷ s)),
              concat-splitlines (text ++ end),
            ),
          ),
        ),
      ),
    )

-- `get_diff` fails on an old text that is empty and on no other. It compares lines that make up, put
-- together again, the old and the new text followed by the same end, which is nothing if the old text ends
-- with a newline, and the line separator of the system if it does not.
pub compared-AreCompared :
    (p : Platform) (old text : Text)
    → ((old ≡ []) × (compared p old text ≡ none))
      ⊎ ((both : List Text × List Text) × ((compared p old text ≡ some both)
            × AreCompared p old text both))
unfolding compared added_end
compared-AreCompared p [] text = inl (refl, refl)
compared-AreCompared p (c ∷ s) text = inr (compared_lem p c s text)
