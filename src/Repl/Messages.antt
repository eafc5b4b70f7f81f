-- ===== src/Repl/Messages.antt =====
-- What the back end sends, each message inside of `send_lock`, as the fields that it writes.
use python_vscode.Prelude.{Text, Bool, List, [], ◌∷◌, ◌++◌, codes, length, if◌then◌else◌}
use python_vscode.Prelude.Int.{pos}
use python_vscode.Debugger.Reports.{Field, raw, int, text}

unfoldable pub send_image : Text → List Field
send_image filename = raw (codes "IMGD") ∷ text filename ∷ []

unfoldable pub write_png : Text → List Field
write_png bytes = raw (codes "DPNG") ∷ int (pos (length bytes)) ∷ raw bytes ∷ []

unfoldable pub write_xaml : Text → List Field
write_xaml bytes = raw (codes "DXAM") ∷ int (pos (length bytes)) ∷ raw bytes ∷ []

unfoldable pub send_prompt : Text → Text → Bool → List Field
send_prompt ps1 ps2 allow_multiple_statements =
    raw (codes "PRPC")
    ∷ text ps1
    ∷ text ps2
    ∷ int (pos (if allow_multiple_statements then 1 else 0))
    ∷ []

unfoldable pub send_cwd : Text → List Field
send_cwd cwd = raw (codes "CHWD") ∷ text cwd ∷ []

unfoldable pub send_error : List Field
send_error = raw (codes "ERRE") ∷ []

unfoldable pub send_exit : List Field
send_exit = raw (codes "EXIT") ∷ []

unfoldable pub send_command_executed : List Field
send_command_executed = raw (codes "DONE") ∷ []

unfoldable pub send_modules_changed : List Field
send_modules_changed = raw (codes "MODC") ∷ []

unfoldable pub on_debugger_detach : List Field
on_debugger_detach = raw (codes "DETC") ∷ []

-- What `read_line` asks the window for
unfoldable pub request_line : List Field
request_line = raw (codes "RDLN") ∷ []

unfoldable pub write_stdout : Text → List Field
write_stdout value = raw (codes "STDO") ∷ text value ∷ []

unfoldable pub write_stderr : Text → List Field
write_stderr value = raw (codes "STDE") ∷ text value ∷ []

-- `_ReplOutput.write`, and `writelines`
unfoldable pub write_output : Bool → Text → List Field
unfolding write_stdout write_stderr
write_output is_stdout value = if is_stdout then write_stdout value else write_stderr value

unfoldable pub writelines : Bool → List Text → List Field
unfolding write_output
writelines is_stdout [] = []
writelines is_stdout (line ∷ lines) =
    write_output is_stdout line
    ++ (write_output is_stdout (codes "\n") ++ writelines is_stdout lines)
