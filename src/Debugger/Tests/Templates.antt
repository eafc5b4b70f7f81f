-- ===== src/Debugger/Tests/Templates.antt =====
-- A template of three lines, with a variable on the second.
use python_vscode.Prelude.{
  ◌+◌, ◌-◌, ◌≡◌, refl, Text, Option, none, some, List, [], ◌∷◌, ◌++◌, arith, codes, inl,
}
use python_vscode.Debugger.Django.{DjangoBreakpointInfo, should_break, line_len, range_in}
use python_vscode.Debugger.Django.Lines.Counted.{range_in-offsets_in}
use python_vscode.Debugger.Django.Ranges.{IsFirst, should_break_lem}

abbrev template : List Text
template = (97 ∷ 13 ∷ 10 ∷ []) ∷ (codes "{{x}}" ++ 10 ∷ []) ∷ codes "b" ∷ []

abbrev read : Text → Option (List Text)
read file = some template

abbrev info : DjangoBreakpointInfo
info = record { known_locations = none; filename = codes "t.html"; breakpoints = (2, 7) ∷ [] }

should_break_lem_example :
    IsFirst info.breakpoints (1 + 1) (1 + 1 - 1) (should_break read 2 7 info).0
should_break_lem_example =
    should_break_lem read info template 2 7 1 1 (inl refl) refl
      (unfold line_len in (omega arith, omega arith))
      (unfold line_len in (omega arith, omega arith))

range_in-offsets_in_example : range_in 9 15 (some (9 ∷ 15 ∷ 20 ∷ [])) ≡ some (1, 1 + 1)
range_in-offsets_in_example =
    range_in-offsets_in (9 ∷ 15 ∷ 20 ∷ []) 1 9 15 (omega arith, (omega arith, (omega arith, tt)))
      (omega arith) refl
