-- ===== src/Debugger/Exceptions/Modes.antt =====
-- The mode of an exception: what the client's message says of it.
use python_vscode.Prelude.{
  ℕ, ◌≡◌, refl, sym, ◌∙◌, ap, Text, Bool, true, false, not, ◌&&◌, ◌||◌, ◌%◌, ◌/◌, ◌==◌, Option,
  List, [], ◌∷◌, ◌++◌, if◌then◌else◌, codes, same, same_iff, text_eq, length, take, drop,
  take-append-drop, arith, inl, inr, Bool-cases,
}
use python_vscode.Prelude.Texts.{starts_with}
use python_vscode.Prelude.Dict.{Dict, lookup, insert, lookup-insert}
use python_vscode.Debugger.Exceptions.{
  BreakType, no_break, unhandled, handled, Handler, ExceptionBreakInfo, Traceback, Raised,
  get_exception_name, is_handled, should_break, short_name, add_exception, add_all,
  built_in_handlers, command_set_exception_info, or_default, clear,
}

-- The module of the built-in exceptions, before the name of one
abbrev builtins_dot : Text
builtins_dot = codes "builtins."

-- Does the client mean the type `name` by `sent`: by this name, or with the built-in module before it?
abbrev pub is_meant : Text → Text → Bool
is_meant sent name =
    same sent (builtins_dot ++ name) || (same sent name && not (starts_with builtins_dot sent))

-- The last of the modes that a message gives for a type; `mode` if it gives none
unfoldable pub last_mode : Text → List (ℕ × Text) → ℕ → ℕ
last_mode name [] mode = mode
last_mode name ((m, sent) ∷ more) mode =
    last_mode name more (if is_meant sent name then m else mode)

-- A type by its module, if that is not the built-in one, and its name
abbrev pub type_name : Text → Text → Text
type_name module_name name =
    if same module_name (codes "builtins") then name else module_name ++ (codes "." ++ name)

-- The type of the break by the two bits of a mode, the first for every exception and the second for those
-- that are not handled, and by whether it is handled
abbrev pub break_by : Bool → Bool → Bool → BreakType
break_by true unhandled_bit true = handled
break_by true unhandled_bit false = unhandled
break_by false true false = unhandled
break_by false true true = no_break
break_by false false is_handled = no_break

break_type-by :
    (always unhandled_bit is_handled : Bool)
    → (if always
        then (if is_handled then handled else unhandled)
        else if unhandled_bit && not is_handled
        then unhandled
        else no_break)
      ≡ break_by always unhandled_bit is_handled
break_type-by true u true = refl
break_type-by true u false = refl
break_type-by false true true = refl
break_type-by false true false = refl
break_type-by false false h = refl

same-false : (s t : Text) → ¬ (s ≡ t) → same s t ≡ false
same-false s t h = elim (Bool-cases (same s t)) [
  | inl e ↦ absurd (h ((same_iff s t).0 e))
  | inr n ↦ n
]

starts_with-take : (p s : Text) → starts_with p s ≡ same (take (length p) s) p
starts_with-take [] s = refl
starts_with-take (a ∷ p) [] = refl
starts_with-take (a ∷ p) (b ∷ s) = ground (arith, starts_with-take p s)

or-and_false : (b c : Bool) → b ≡ (b || (c && false))
or-and_false true c = refl
or-and_false false true = refl
or-and_false false false = refl

and_true : (b : Bool) → b ≡ (b && true)
and_true true = refl
and_true false = refl

with_prefix :
    (sent rest name : Text)
    → builtins_dot ++ rest ≡ sent
    → same rest name ≡ (same sent (builtins_dot ++ name) || (same sent name && false))
with_prefix sent rest name q = rw (← q) (or-and_false (same rest name) _)

without_prefix :
    (sent name : Text)
    → same (take 9 sent) builtins_dot ≡ false
    → same sent name ≡ (same sent (builtins_dot ++ name) || (same sent name && true))
without_prefix sent name n =
    let other : same sent (builtins_dot ++ name) ≡ false =
      same-false sent (builtins_dot ++ name)
        λ q. let e : same (take 9 sent) builtins_dot ≡ true = rw q refl in cc in
    rw other (and_true (same sent name))

short_name-is_meant : (sent name : Text) → same (short_name sent) name ≡ is_meant sent name
unfolding short_name
short_name-is_meant sent name =
    rw (starts_with-take builtins_dot sent) (elim (Bool-cases (same (take 9 sent) builtins_dot)) [
      | inl e ↦
          let q : builtins_dot ++ drop 9 sent ≡ sent =
            ap (λ p. p ++ drop 9 sent) (sym ((same_iff (take 9 sent) builtins_dot).0 e))
            ∙ take-append-drop 9 sent in
          rw e (with_prefix sent (drop 9 sent) name q)
      | inr n ↦ rw n (without_prefix sent name n)
    ])

or_default-insert :
    (sent name : Text) (m mode : ℕ) (d : Dict Text ℕ)
    → or_default (lookup name (insert sent m d)) mode
      ≡ (if same sent name then m else or_default (lookup name d) mode)
or_default-insert sent name m mode d =
    rw (lookup-insert sent name m d)
      (elim (Bool-cases (same sent name)) [ inl e ↦ rw e | inr e ↦ rw e ])

or_default-add_all :
    (name : Text) (exceptions : List (ℕ × Text)) (info : ExceptionBreakInfo)
    → or_default
        (lookup name (add_all exceptions info).break_on)
        (add_all exceptions info).default_mode
      ≡ last_mode name exceptions (or_default (lookup name info.break_on) info.default_mode)
unfolding add_all last_mode add_exception
or_default-add_all name [] info = refl
or_default-add_all name ((m, sent) ∷ more) info =
    or_default-add_all name more (add_exception sent m info)
    ∙ ap (last_mode name more) (
        or_default-insert (short_name sent) name m info.default_mode info.break_on
        ∙ ap (λ b. if b then m else or_default (lookup name info.break_on) info.default_mode)
            (short_name-is_meant sent name))

handler_cache-add_all :
    (exceptions : List (ℕ × Text)) (info : ExceptionBreakInfo)
    → (add_all exceptions info).handler_cache ≡ info.handler_cache
unfolding add_all add_exception
handler_cache-add_all [] info = refl
handler_cache-add_all ((m, sent) ∷ more) info =
    handler_cache-add_all more (add_exception sent m info)

-- After a message that sets the exceptions, whatever was set before, the last mode of the message that
-- means an exception's type, by its name or with the built-in module before it, or else the message's default
-- mode, says how the debugger stops: with its first bit at every such exception, as handled or as not, and
-- with only its bit 32 at those that are not handled. The handlers that count are the built-in ones and those
-- that the client sends from then on. A SystemExit without an exit code that counts does not stop it, unless
-- that was asked for.
pub should_break-command_set_exception_info :
    (reply : Text → Option (List Handler)) (systemexit_zero : Bool) (ex : Raised)
    (trace : Option Traceback) (files : List Text) (mode : ℕ) (exceptions : List (ℕ × Text))
    (info : ExceptionBreakInfo)
    → (should_break reply systemexit_zero ex trace
        (command_set_exception_info files mode exceptions info)).0
      ≡ (if ex.system_exit && not systemexit_zero && ex.zero_exit
          then no_break
          else let m = last_mode (type_name ex.module_name ex.name) exceptions mode in
            break_by
              (m % 2 == 1)
              (m / 32 % 2 == 1)
              (is_handled reply trace (built_in_handlers files)).is_handled)
unfolding lookup
should_break-command_set_exception_info reply systemexit_zero ex trace files mode exceptions info =
    let start : ExceptionBreakInfo = record {
      default_mode = mode;
      break_on = [];
      handler_cache = built_in_handlers files;
    } in
    let m : ℕ = last_mode (type_name ex.module_name ex.name) exceptions mode in
    let modes = or_default-add_all (get_exception_name ex.module_name ex.name) exceptions start in
    let cache = handler_cache-add_all exceptions start in
    unfold should_break command_set_exception_info clear get_exception_name in
    rw
      (
        cache,
        modes,
        break_type-by (m % 2 == 1) (m / 32 % 2 == 1)
            (is_handled reply trace (built_in_handlers files)).is_handled,
      )
      refl
