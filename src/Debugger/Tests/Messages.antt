-- ===== src/Debugger/Tests/Messages.antt =====
-- The frames of a thread, on the wire.
use python_vscode.Prelude.{
  zero, suc, ◌<◌, same, ℕ, ◌≡◌, refl, Text, Option, none, some, [], ◌∷◌, ◌++◌, codes, map, arith,
  true, false,
}
use python_vscode.Prelude.Int.{pos}
use python_vscode.Debugger.Frames.{FrameInfo}
use python_vscode.Debugger.Reports.{int, Shown, text_or_none, send_frame_list}
use python_vscode.Debugger.Reports.Parsed.{frame_of, read_message, read_message-send_frame_list}

abbrev loaded : Text
loaded =
    codes "MODL"
    ++ (0 ∷ 0 ∷ 0 ∷ 0 ∷ 0 ∷ 0 ∷ 0 ∷ 3 ∷ [])
    ++ (codes "U" ++ ((0 ∷ 0 ∷ 0 ∷ 0 ∷ 0 ∷ 0 ∷ 0 ∷ 1 ∷ []) ++ codes "m"))

-- A number shows as itself, and no object as an undefined name.
abbrev describe : Option ℕ → Shown
describe object = record {
  repr = some (codes "?");
  hex_repr = none;
  len = none;
  is_synthesized = elim object [ none ↦ true | some n ↦ false ];
  is_nonexpandable = true;
  is_raw_type = false;
  type_name = codes "int";
}

abbrev frame : FrameInfo ℕ
frame = record {
  first_line = 1;
  last_line = pos 3;
  line = 2;
  name = codes "f";
  filename = codes "m.py";
  arg_count = 0;
  variables = (codes "x", some 5) ∷ (codes "y", none) ∷ [];
}

read_message-send_frame_list_example :
    read_message (send_frame_list describe 4 none (frame ∷ frame ∷ []))
    ≡ some (int (pos 4), text_or_none none, map (frame_of describe) (frame ∷ frame ∷ []))
read_message-send_frame_list_example =
    read_message-send_frame_list describe 4 none (frame ∷ frame ∷ [])

-- Numbers as so many strokes
abbrev strokes : ℕ → Text
strokes zero = []
strokes (suc n) = 124 ∷ strokes n

strokes_distinct : (i j : ℕ) → i < j → same (strokes i) (strokes j) ≡ false
strokes_distinct zero zero h = absurd (omega arith)
strokes_distinct zero (suc j) h = refl
strokes_distinct (suc i) zero h = absurd (omega arith)
strokes_distinct (suc i) (suc j) h = strokes_distinct i j (omega arith)
