-- ===== src/Debugger/Tests/Received.antt =====
-- A client that steps, says which exceptions a file handles, and detaches.
use python_vscode.Prelude.{
  ℕ, Text, Bool, suc, Option, some, List, [], ◌∷◌, ◌++◌, ◌==◌, codes, map, ◌≡◌, refl, arith,
  text_eq,
}
use python_vscode.Prelude.Int.{pos}
use python_vscode.Prelude.Dict.{lookup}
use python_vscode.Wire.{Conn, done}
use python_vscode.Wire.Bytes.{pack_q}
use python_vscode.Wire.Utf8.{encode}
use python_vscode.Wire.RoundTrip.{Delivers}
use python_vscode.Wire.Reads.{a_number}
use python_vscode.Debugger.Loop.{
  Command, plain, set_exception_handler_info, loop, command_table, number,
}
use python_vscode.Debugger.Loop.Handled.{received, stream_bytes, loop-received}

abbrev is_space : ℕ → Bool
is_space c = c == 32

abbrev commands : List Command
commands =
    plain (codes "stpi") (a_number (pos 7) ∷ [])
    ∷ set_exception_handler_info (codes "f") (
        record { line_start = pos 1; line_end = pos 2; expressions = codes " E" ∷ codes "E" ∷ [] }
        ∷ [])
    ∷ []

abbrev byte_frame : ℕ → Text
byte_frame n = 0 ∷ 0 ∷ 0 ∷ 0 ∷ 0 ∷ 0 ∷ 0 ∷ n ∷ []

abbrev handler_bytes : Text
handler_bytes =
    byte_frame 1
    ++ (codes "f"
        ++ (byte_frame 1
            ++ (byte_frame 1
                ++ (byte_frame 2
                    ++ (byte_frame 2
                        ++ (codes " E"
                            ++ (byte_frame 1 ++ (codes "E" ++ (byte_frame 1 ++ codes "-")))))))))

-- `detc`
abbrev detach : Command
detach = plain (codes "detc") []

-- Handlers that count the commands
abbrev counts : Command → ℕ → Option ℕ
counts command n = some (suc n)

abbrev sent : Text
sent = (codes "stpi" ++ byte_frame 7) ++ ((codes "sehi" ++ handler_bytes) ++ codes "detc")

sent_stream : stream_bytes (commands ++ detach ∷ []) ≡ some sent
unfolding encode pack_q
sent_stream = refl

abbrev connection : Conn
connection = record {
  incoming =
      codes "st"
      ∷ (codes "pi" ++ byte_frame 7)
      ∷ (codes "sehi" ++ handler_bytes)
      ∷ codes "detc"
      ∷ [];
  outgoing = [];
}

stepping_known : lookup (codes "stpi") command_table ≡ some (number ∷ [])
unfolding lookup
stepping_known = refl

detach_known : lookup (codes "detc") command_table ≡ some []
unfolding lookup
detach_known = refl

loop-received_example :
    (chunks : List Text) × (loop is_space counts 120 3 0 connection
      ≡ done
          (map (received is_space) commands ++ received is_space detach ∷ [])
          (record connection { incoming = chunks }))
    × Delivers (record connection { incoming = chunks }) [] []
loop-received_example =
    loop-received is_space 120 counts commands detach 3 sent 0 2 connection []
      ((stepping_known, refl, refl, refl), ((((refl, (refl, tt)), tt)), tt))
      (detach_known, refl, refl, refl) refl refl sent_stream (omega arith) (omega arith)
      (record {
        chunks = (omega arith, (omega arith, (omega arith, (omega arith, tt))));
        stream = refl;
      })
