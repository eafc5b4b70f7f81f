-- ===== src/Wire/Tests.antt =====
-- Runs of the protocol, and the theorems on it at concrete connections.
use python_vscode.Prelude.{◌≡◌, refl, Text, some, List, [], ◌∷◌, ◌++◌, arith, length}
use python_vscode.Prelude.Int.{pos, negsuc}
use python_vscode.Wire.{
  Conn, done, running, read_bytes, read_int, write_int, write_bytes, write_sized, write_string,
  read_string, unicode, unicode_prefix,
}
use python_vscode.Wire.Bytes.{pack_q}
use python_vscode.Wire.Utf8.{encode}
use python_vscode.Wire.Frames.{bytes, AreChunks, read_bytes_exact, read_bytes_starved}
use python_vscode.Wire.RoundTrip.{
  Delivers, written, prefixed, read_int-write_int, read_string-write_string,
}

-- Nothing received, one byte sent.
abbrev sender : Conn
sender = record { incoming = []; outgoing = 9 ∷ [] }

-- 258 as eight bytes, in two chunks, with a byte after it.
abbrev receiver : Conn
receiver = record {
  incoming = (0 ∷ 0 ∷ 0 ∷ []) ∷ (0 ∷ 0 ∷ 0 ∷ 1 ∷ 2 ∷ 77 ∷ []) ∷ [];
  outgoing = [];
}

pack_q_258 : pack_q (pos 258) ≡ some (0 ∷ 0 ∷ 0 ∷ 0 ∷ 0 ∷ 0 ∷ 1 ∷ 2 ∷ [])
unfolding pack_q
pack_q_258 = refl

pack_q_minus_one : pack_q (negsuc 0) ≡ some (255 ∷ 255 ∷ 255 ∷ 255 ∷ 255 ∷ 255 ∷ 255 ∷ 255 ∷ [])
unfolding pack_q
pack_q_minus_one = refl

read_bytes_exact_example :
    (chunks : List Text) × (read_bytes 9 5 receiver
      ≡ done (0 ∷ 0 ∷ 0 ∷ 0 ∷ 0 ∷ []) (record receiver { incoming = chunks }))
    × (bytes chunks ≡ 0 ∷ 1 ∷ 2 ∷ 77 ∷ [])
    × AreChunks chunks
read_bytes_exact_example =
    read_bytes_exact 9 5 receiver (0 ∷ 0 ∷ 0 ∷ 0 ∷ 0 ∷ []) (0 ∷ 1 ∷ 2 ∷ 77 ∷ [])
      (omega arith, (omega arith, tt)) refl refl (omega arith)

read_bytes_starved_example : read_bytes 1000 10 receiver ≡ running
read_bytes_starved_example = read_bytes_starved 1000 10 receiver (omega arith)

read_int-write_int_example :
    (write_int (pos 258) sender
      ≡ done tt (record sender {
        outgoing = sender.outgoing ++ written sender (write_int (pos 258) sender);
      }))
    × (length (written sender (write_int (pos 258) sender)) ≡ 8)
    × ((chunks : List Text) × (read_int 9 receiver
          ≡ done (pos 258) (record receiver { incoming = chunks }))
        × Delivers (record receiver { incoming = chunks }) [] (77 ∷ []))
read_int-write_int_example =
    read_int-write_int (pos 258) sender receiver 9 (77 ∷ []) (omega arith) (omega arith) (
      unfold write_int write_bytes pack_q in
      record { chunks = (omega arith, (omega arith, tt)); stream = refl })

-- An "é", which is the two bytes 195 and 169.
abbrev text_receiver : Conn
text_receiver = record {
  incoming = (0 ∷ 0 ∷ 0 ∷ 0 ∷ 0 ∷ 0 ∷ 0 ∷ 2 ∷ 195 ∷ []) ∷ (169 ∷ 1 ∷ []) ∷ [];
  outgoing = [];
}

encode_e : encode (233 ∷ []) ≡ some (195 ∷ 169 ∷ [])
unfolding encode
encode_e = refl

read_string-write_string_example :
    (write_string (unicode (233 ∷ [])) sender
      ≡ done tt (record sender {
        outgoing =
            (sender.outgoing ++ unicode_prefix)
            ++ written (prefixed sender) (write_string (unicode (233 ∷ [])) sender);
      }))
    × ((chunks : List Text) × (read_string 11 text_receiver
          ≡ done (233 ∷ []) (record text_receiver { incoming = chunks }))
        × Delivers (record text_receiver { incoming = chunks }) [] (1 ∷ []))
read_string-write_string_example =
    read_string-write_string (233 ∷ []) (195 ∷ 169 ∷ []) sender text_receiver 11 (1 ∷ []) encode_e
      (omega arith) (omega arith)
      (unfold write_string write_sized write_int write_bytes pack_q encode in
        record { chunks = (omega arith, (omega arith, tt)); stream = refl })
