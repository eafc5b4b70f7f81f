-- ===== src/Completion/Requests/Watched.antt =====
-- The loop of the server.
use python_vscode.Prelude.{
  ℕ, zero, suc, ◌<◌, ◌≡◌, refl, ap, Text, false, some, List, [], ◌∷◌, ◌++◌, same, length, arith,
  All,
}
use python_vscode.Completion.Paths.{SysPath}
use python_vscode.Completion.Requests.{
  World, Output, end_of_file, process_request, write_response, watch,
}

module _ (w : World) where
  -- The requests one after the other, on the paths that those before have left.
  unfoldable pub served : List Text → SysPath → List Output × SysPath
  served [] sys = ([], sys)
  served (l ∷ lines) sys =
      let (answer, sys') = process_request w l sys in
      let (outputs, last) = served lines sys' in (write_response answer ∷ outputs, last)

  length-served : (lines : List Text) (sys : SysPath) → length (served lines sys).0 ≡ length lines
  unfolding served
  length-served [] sys = refl
  length-served (l ∷ lines) sys = ap suc (length-served lines (process_request w l sys).1)

  -- On an input that ends after some lines, none of which is empty, the loop ends if it may turn once
  -- more than there are lines: it has written one thing for each line, in the order of the lines, an
  -- answer or a traceback, each of a request on the paths that the requests before have left, and then
  -- the notice of the end.
  pub watch-served :
      (fuel : ℕ) (lines : List Text) (sys : SysPath)
      → All (λ l. same l [] ≡ false) lines
      → length lines < fuel
      → (watch w fuel lines sys
          ≡ some ((served lines sys).0 ++ end_of_file ∷ [], (served lines sys).1))
        × (length (served lines sys).0 ≡ length lines)
  unfolding watch served
  watch-served zero lines sys h k = absurd (omega arith)
  watch-served (suc fuel) [] sys h k = (refl, refl)
  watch-served (suc fuel) (l ∷ lines) sys h k =
      let rest = watch-served fuel lines (process_request w l sys).1 h.1 (omega arith) in
      (rw (h.0, rest.0), ap suc rest.1)
