-- ===== src/Repl/Signatures.antt =====
-- The signatures of a callable: `collect_signatures`, and the message of `_cmd_sigs`.
pub mod Counted
use python_vscode.Prelude.{
  ℕ, zero, suc, ◌+◌, ◌-◌, Text, Bool, true, false, not, ◌&&◌, ◌||◌, Option, none, some, List, [],
  ◌∷◌, ◌++◌, if◌then◌else◌, codes, length, take, drop, map,
}
use python_vscode.Prelude.Int.{pos}
use python_vscode.Prelude.Options.{◌>>=◌}
use python_vscode.Debugger.Reports.{Field, raw, int, text}

-- `doc, args, vargs, varkw, defaults`
pub record Signature : Type 0 where
  pub doc : Option Text
  pub args : List Text
  pub vargs : Option Text
  pub varkw : Option Text
  pub defaults : List Text

-- `inspect.getargspec`, with the reprs of the defaults: no default has None as its list, and a repr that
-- raises is none.
pub record ArgSpec : Type 0 where
  pub args : List Text
  pub vargs : Option Text
  pub varkw : Option Text
  pub defaults : Option (List (Option Text))

-- What is asked of the value: its doc, its spec, or that of its `__init__` if it is a type, none where
-- `getargspec` raises, and whether it is a bound method.
pub record Callable : Type 0 where
  pub doc : Option Text
  pub is_type : Bool
  pub is_bound : Bool
  pub spec : Option ArgSpec

-- `[repr(default) for default in defaults]`
unfoldable pub reprs : List (Option Text) → Option (List Text)
reprs [] = some []
reprs (default ∷ rest) = do r ← default; rs ← reprs rest; some (r ∷ rs)

abbrev pub reprs_of : Option (List (Option Text)) → Option (List Text)
reprs_of none = some []
reprs_of (some defaults) = reprs defaults

-- On CPython, where the exception of `getargspec` is raised again
unfoldable pub collect_signatures : Callable → Option (List Signature)
collect_signatures v = do
  spec ← v.spec
  defaults ← reprs_of spec.defaults
  some (
      record {
        doc = v.doc;
        args = if v.is_type || v.is_bound then drop 1 spec.args else spec.args;
        vargs = spec.vargs;
        varkw = spec.varkw;
        defaults = defaults;
      }
      ∷ [])

abbrev pub replicate {ℓ} : {A : Type ℓ} → ℕ → A → List A
replicate zero a = []
replicate (suc n) a = a ∷ replicate n a

-- `zip`
abbrev pub zip_with {ℓ} : {A B C : Type ℓ} → (A → B → C) → List A → List B → List C
zip_with f [] bs = []
zip_with f (a ∷ rest) [] = []
zip_with f (a ∷ rest) (b ∷ bs) = f a b ∷ zip_with f rest bs

abbrev pub present : Option Text → ℕ
present none = 0
present (some t) = 1

-- `(doc or '')[:4096]`
abbrev pub shown_doc : Option Text → Text
shown_doc none = []
shown_doc (some doc) = take 4096 doc

abbrev pub starred : Text → Option Text → List Text
starred stars none = []
starred stars (some name) = (stars ++ name) ∷ []

unfoldable pub arg_count : Signature → ℕ
arg_count s = length s.args + present s.vargs + present s.varkw

unfoldable pub def_values : Signature → List Text
def_values s =
    replicate (length s.args - length s.defaults) [] ++ map (λ d. codes "=" ++ d) s.defaults

-- The strings that follow the count
unfoldable pub arg_strings : Signature → List Text
unfolding def_values
arg_strings s =
    zip_with (λ arg def_value. arg ++ def_value) s.args (def_values s)
    ++ (starred (codes "*") s.vargs ++ starred (codes "**") s.varkw)

unfoldable pub signature_fields : Signature → List Field
unfolding arg_count arg_strings
signature_fields s = text (shown_doc s.doc) ∷ int (pos (arg_count s)) ∷ map text (arg_strings s)

abbrev pub all_fields : List Signature → List Field
all_fields [] = []
all_fields (s ∷ sigs) = signature_fields s ++ all_fields sigs

unfoldable pub signatures_result : List Signature → List Field
unfolding signature_fields
signatures_result sigs = raw (codes "SRES") ∷ int (pos (length sigs)) ∷ all_fields sigs

unfoldable pub signatures_error : List Field
signatures_error = raw (codes "SERR") ∷ []
