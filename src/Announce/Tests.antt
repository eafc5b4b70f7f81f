-- ===== src/Announce/Tests.antt =====
-- A directory of news.
use python_vscode.Prelude.{ℕ, Bool, List, [], ◌∷◌, codes, ◌==◌}
use python_vscode.Announce.{File}

abbrev news : List File
news =
    record { name = codes "README.md"; text = [] }
    ∷ record { name = codes "1234-nonce.md"; text = codes "Fixed" }
    ∷ []

abbrev blank : ℕ → Bool
blank c = c == 32
