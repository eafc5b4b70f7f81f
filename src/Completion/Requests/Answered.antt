-- ===== src/Completion/Requests/Answered.antt =====
-- Which requests have an answer.
use python_vscode.Prelude.{
  ℕ, suc, ◌≡◌, refl, Text, Bool, true, false, Option, some, List, if◌then◌else◌, same, codes,
}
use python_vscode.Completion.{Attempt, returned, key_error, other_error}
use python_vscode.Prelude.Options.{◌>>=◌}
use python_vscode.Completion.Paths.{
  SysPath, Settings, current, add_path, get_or, set_request_config, get_top_level_module,
}
use python_vscode.Completion.Items.{serialize_methods}
use python_vscode.Completion.Jedi.{Signature, Completion}
use python_vscode.Completion.Definitions.{serialize_usages}
use python_vscode.Completion.Signatures.{get_call_signatures_with_args}
use python_vscode.Completion.Requests.{
  Request, Script, World, Results, Output, written, traceback, no_config, or_raise, reply_to,
  look_up, process_request, write_response, Reply, text, answers, usages, signatures, reply_methods,
  definitionsx, tooltip_results, path_of,
}

abbrev pub has_raised {ℓ} : {A : Type ℓ} → Attempt A → Bool
has_raised (returned a) = false
has_raised key_error = true
has_raised other_error = true

abbrev pub has_other {ℓ} : {A : Type ℓ} → Attempt A → Bool
has_other (returned a) = false
has_other key_error = false
has_other other_error = true

-- Is a request with this `lookup` left without an answer, by what jedi raises?
abbrev pub is_lost : Text → Script → Bool
is_lost lookup s =
    if same lookup (codes "definitions")
    then has_raised s.goto_assignments_followed
    else if same lookup (codes "tooltip")
    then false
    else if same lookup (codes "arguments")
    then has_other s.call_signatures
    else if same lookup (codes "usages")
    then has_raised s.usages
    else if same lookup (codes "methods")
    then has_raised s.method_completions
    else false

-- What is written: an answer with the request's id, or a traceback where the request is lost
abbrev pub IsAnswer : ℕ → Bool → Output → Type 0
IsAnswer id false o = (results : Results) × (o ≡ written id results)
IsAnswer id true o = o ≡ traceback

module _ (id : ℕ) where
  text-IsAnswer : (results : Results) → IsAnswer id false (write_response (some (text id results)))
  unfolding write_response
  text-IsAnswer results = (results, refl)

  if-IsAnswer :
      (b x y : Bool) (p q : Option Reply)
      → IsAnswer id x (write_response p)
      → IsAnswer id y (write_response q)
      → IsAnswer id (if b then x else y) (write_response (if b then p else q))
  if-IsAnswer true x y p q h k = h
  if-IsAnswer false x y p q h k = k

  attempt-IsAnswer {ℓ} :
      {A : Type ℓ} (a : Attempt A) (f : A → Results)
      → IsAnswer id (has_raised a) (write_response (or_raise a >>= λ x. some (text id (f x))))
  unfolding write_response
  attempt-IsAnswer (returned x) f = (f x, refl)
  attempt-IsAnswer key_error f = refl
  attempt-IsAnswer other_error f = refl

  arguments-IsAnswer :
      (a : Attempt (List Signature))
      → IsAnswer id (has_other a) (
          write_response
            (or_raise (get_call_signatures_with_args a) >>= λ x. some (text id (signatures x))))
  unfolding write_response get_call_signatures_with_args
  arguments-IsAnswer (returned x) = (_, refl)
  arguments-IsAnswer key_error = (_, refl)
  arguments-IsAnswer other_error = refl

  methods-IsAnswer :
      (w : World) (a : Attempt (List Completion))
      → IsAnswer id (has_raised a) (write_response (reply_methods w id (serialize_methods a)))
  unfolding write_response serialize_methods
  methods-IsAnswer w (returned x) = (_, refl)
  methods-IsAnswer w key_error = refl
  methods-IsAnswer w other_error = refl

module _ (w : World) where
  reply_to-IsAnswer :
      (id : ℕ) (r : Request) (settings : Settings) (lookup : Text) (s : Script)
      → IsAnswer id (is_lost lookup s) (write_response (reply_to w id r settings lookup s))
  unfolding reply_to
  reply_to-IsAnswer id r settings lookup s =
      if-IsAnswer id (same lookup (codes "definitions")) _ _ _ _
        (attempt-IsAnswer id s.goto_assignments_followed (λ ds. answers (definitionsx w false ds)))
        (if-IsAnswer id (same lookup (codes "tooltip")) _ _ _ _
          (text-IsAnswer id (tooltip_results w s))
          (if-IsAnswer id (same lookup (codes "arguments")) _ _ _ _
            (arguments-IsAnswer id s.call_signatures)
            (if-IsAnswer id (same lookup (codes "usages")) _ _ _ _
              (attempt-IsAnswer id s.usages (λ us. usages (serialize_usages us)))
              (if-IsAnswer id (same lookup (codes "methods")) _ _ _ _
                (methods-IsAnswer id w s.method_completions) (text-IsAnswer id _)))))

  -- `sys.path` as it is when `jedi.Script` is called for a request whose top level module is `top`
  abbrev pub paths_for : Request → Text → SysPath → List Text
  paths_for r top sys =
      current (add_path top (set_request_config (get_or r.config no_config) sys).1)

  -- If a request is JSON with an id, a line, a column and another `lookup` than `names`, the walk to its
  -- top level module ends, and `jedi.Script` returns for its source, its place, its path and the paths as
  -- they are then, then what is written for it is an answer with its id, or a traceback on the standard
  -- error and no answer: that is so where jedi raises anything as it looks up definitions, usages
  -- or methods, and where it raises anything but a KeyError for the signatures of arguments. A tooltip
  -- and a completion always have an answer.
  pub process_request-IsAnswer :
      (rq : Text) (r : Request) (id line column : ℕ) (top : Text) (s : Script) (sys : SysPath)
      → w.loads rq ≡ some r
      → r.id ≡ some id
      → r.line ≡ some line
      → r.column ≡ some column
      → same (get_or r.lookup (codes "completions")) (codes "names") ≡ false
      → get_top_level_module w.files w.limit (path_of w r) ≡ some top
      → w.script r.source (suc line) column (path_of w r) (paths_for r top sys) ≡ some s
      → IsAnswer id
          (is_lost (get_or r.lookup (codes "completions")) s)
          (write_response (process_request w rq sys).0)
  unfolding process_request look_up
  process_request-IsAnswer rq r id line column top s sys j i l c n t k =
      rw (j, t, n, l, c)
        (rw k (
          rw i (
            reply_to-IsAnswer id r (set_request_config (get_or r.config no_config) sys).0
              (get_or r.lookup (codes "completions")) s)))
