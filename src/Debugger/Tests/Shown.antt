-- ===== src/Debugger/Tests/Shown.antt =====
-- A frame with a local name, an undefined one and a global one.
use python_vscode.Prelude.{ℕ, ◌≡◌, Text, false, none, some, [], ◌∷◌, codes, text_eq}
use python_vscode.Prelude.Dict.{lookup, Distinct}
use python_vscode.Debugger.Frames.{CodeFrame, frame_variables}
use python_vscode.Debugger.Frames.Variables.{shown, frame_variables-shown}

abbrev frame : CodeFrame ℕ
frame = record {
  co_filename = codes "m.py";
  co_name = codes "f";
  co_firstlineno = 1;
  co_argcount = 1;
  line_table = some (0 ∷ 1 ∷ []);
  span_end = none;
  f_lineno = 2;
  is_entrypoint = false;
  f_locals = (codes "x", 5) ∷ [];
  f_globals = (codes "g", 6) ∷ (codes "x", 7) ∷ [];
  locals_are_globals = false;
  co_varnames = codes "x" ∷ codes "y" ∷ [];
  co_names = codes "g" ∷ codes "print" ∷ [];
}

frame_variables-shown_example :
    Distinct (frame_variables frame).0
    × ((t : Text) → lookup t (frame_variables frame).0 ≡ shown frame t)
frame_variables-shown_example = frame_variables-shown frame
