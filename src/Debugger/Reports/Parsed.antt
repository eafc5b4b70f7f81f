-- ===== src/Debugger/Reports/Parsed.antt =====
-- The message of a thread's frames, read by the counts that it holds.
use python_vscode.Prelude.{
  ℕ, zero, suc, ◌≡◌, refl, Text, Option, none, some, List, [], ◌∷◌, ◌++◌, append_assoc, append-nil,
  if◌then◌else◌, same, codes, length, map,
}
use python_vscode.Prelude.Int.{pos}
use python_vscode.Prelude.Dict.{Dict}
use python_vscode.Prelude.Options.{◌>>=◌}
use python_vscode.Debugger.Frames.{FrameInfo}
use python_vscode.Debugger.Reports.{
  Field, raw, int, text, text_or_none, Shown, no_flags, write_object, variables_fields,
  frame_fields, frames_fields, send_frame_list,
}

-- A part of a message and what follows it
abbrev pub Part : Type 0 → Type 0
Part A = Option (A × List Field)

abbrev pub read_number : List Field → Part ℕ
read_number (int (pos n) ∷ fields) = some (n, fields)
read_number _ = none

-- A variable is its name and the five fields of its object.
abbrev pub read_variable : List Field → Part (List Field)
read_variable (a ∷ b ∷ c ∷ d ∷ e ∷ f ∷ fields) = some (a ∷ b ∷ c ∷ d ∷ e ∷ f ∷ [], fields)
read_variable _ = none

abbrev pub put {ℓ} : {A : Type ℓ} → A → List A × List Field → Option (List A × List Field)
put a (more, fields) = some (a ∷ more, fields)

-- As many as a count says
abbrev pub read_variables : ℕ → List Field → Part (List (List Field))
read_variables zero fields = some ([], fields)
read_variables (suc n) fields =
    read_variable fields >>= λ (v, rest). read_variables n rest >>= λ p. put v p

-- A frame is its lines, its name, its file, its arguments and its kind, and then its variables.
abbrev pub Frame : Type 0
Frame = List Field × List (List Field)

abbrev pub read_head : List Field → Part (List Field)
read_head (a ∷ b ∷ c ∷ d ∷ e ∷ f ∷ k ∷ fields) = some (a ∷ b ∷ c ∷ d ∷ e ∷ f ∷ k ∷ [], fields)
read_head _ = none

abbrev pub read_frame : List Field → Part Frame
read_frame fields = do
  (head, rest) ← read_head fields
  (n, rest') ← read_number rest
  (variables, rest'') ← read_variables n rest'
  some ((head, variables), rest'')

abbrev pub read_frames : ℕ → List Field → Part (List Frame)
read_frames zero fields = some ([], fields)
read_frames (suc n) fields = read_frame fields >>= λ (f, rest). read_frames n rest >>= λ p. put f p

abbrev pub all_read : List Frame × List Field → Option (List Frame)
all_read (frames, []) = some frames
all_read (frames, f ∷ fields) = none

-- The thread, its name and its frames, with nothing left over
abbrev pub read_message : List Field → Option (Field × Field × List Frame)
read_message (raw command ∷ id ∷ name ∷ fields) = do
  (n, rest) ← read_number fields
  p ← read_frames n rest
  frames ← all_read p
  if same command (codes "THRF") then some (id, name, frames) else none
read_message _ = none

module _ {A : Type 0} (describe : Option A → Shown) where
  -- What is to be read of a variable and of a frame
  abbrev pub variable_of : Text × Option A → List Field
  variable_of (name, object) = text name ∷ write_object no_flags (describe object)

  abbrev pub frame_of : FrameInfo A → Frame
  frame_of f = (
    int (pos f.first_line)
        ∷ int f.last_line
        ∷ int (pos f.line)
        ∷ text f.name
        ∷ text f.filename
        ∷ int (pos f.arg_count)
        ∷ int (pos 1)
        ∷ [],
    map variable_of f.variables,
  )

  read_variables-variables_fields :
      (variables : Dict Text (Option A)) (rest : List Field)
      → read_variables (length variables) (variables_fields describe variables ++ rest)
        ≡ some (map variable_of variables, rest)
  unfolding variables_fields write_object
  read_variables-variables_fields [] rest = refl
  read_variables-variables_fields ((name, object) ∷ variables) rest =
      rw (read_variables-variables_fields variables rest)

  read_frame-frame_fields :
      (f : FrameInfo A) (rest : List Field)
      → read_frame (frame_fields describe f ++ rest) ≡ some (frame_of f, rest)
  unfolding frame_fields
  read_frame-frame_fields f rest = rw (read_variables-variables_fields f.variables rest)

  read_frames-frames_fields :
      (frames : List (FrameInfo A)) (rest : List Field)
      → read_frames (length frames) (frames_fields describe frames ++ rest)
        ≡ some (map frame_of frames, rest)
  read_frames-frames_fields [] rest = refl
  read_frames-frames_fields (f ∷ frames) rest =
      rw (append_assoc (frame_fields describe f) (frames_fields describe frames) rest) (
        rw (read_frame-frame_fields f (frames_fields describe frames ++ rest))
          (rw (read_frames-frames_fields frames rest)))

  -- Whatever the frames of a thread and their variables are, and however their objects are described, who reads
  -- the fields of the message by the counts that it holds finds the thread, its name, every frame in
  -- order with its seven fields and every variable of it in order with its name and its object, and
  -- nothing is left over.
  pub read_message-send_frame_list :
      (id : ℕ) (thread_name : Option Text) (frames : List (FrameInfo A))
      → read_message (send_frame_list describe id thread_name frames)
        ≡ some (int (pos id), text_or_none thread_name, map frame_of frames)
  unfolding send_frame_list
  read_message-send_frame_list id thread_name frames =
      rw (← append-nil (frames_fields describe frames)) (rw (read_frames-frames_fields frames []))
