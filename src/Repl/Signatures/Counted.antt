-- ===== src/Repl/Signatures/Counted.antt =====
-- What the window reads of the signatures: as many strings as the counts say.
use python_vscode.Prelude.{
  ℕ, zero, suc, ◌+◌, ◌-◌, ◌≤◌, ◌<◌, Text, Option, none, some, List, [], ◌∷◌, ◌++◌, if◌then◌else◌,
  same, ltb, codes, length, length-append, get_elem?, map, append_assoc, ◌≡◌, refl, ◌∙◌, arith,
}
use python_vscode.Prelude.Int.{pos}
use python_vscode.Prelude.Options.{◌>>=◌}
use python_vscode.Wire.{unicode}
use python_vscode.Debugger.Reports.{Field, raw, int, string, text}
use python_vscode.Repl.Signatures.{
  Signature, replicate, zip_with, present, starred, shown_doc, arg_count, def_values, arg_strings,
  signature_fields, all_fields, signatures_result,
}

-- The next strings
abbrev pub read_texts : ℕ → List Field → Option (List Text × List Field)
read_texts zero fields = some ([], fields)
read_texts (suc n) (string (unicode t) ∷ fields) = read_texts n fields >>= λ r. some (t ∷ r.0, r.1)
read_texts (suc n) fields = none

-- One overload: its doc, and its arguments after their count
abbrev pub read_signature : List Field → Option ((Text × List Text) × List Field)
read_signature (string (unicode doc) ∷ int (pos n) ∷ fields) =
    read_texts n fields >>= λ r. some ((doc, r.0), r.1)
read_signature fields = none

abbrev pub read_signatures : ℕ → List Field → Option (List (Text × List Text) × List Field)
read_signatures zero fields = some ([], fields)
read_signatures (suc n) fields =
    read_signature fields >>= λ s. read_signatures n s.1 >>= λ r. some (s.0 ∷ r.0, r.1)

abbrev pub read_result : List Field → Option (List (Text × List Text) × List Field)
read_result (raw tag ∷ int (pos n) ∷ fields) =
    if same tag (codes "SRES") then read_signatures n fields else none
read_result fields = none

-- What is shown of a signature
abbrev pub shown : Signature → Text × List Text
shown s = (shown_doc s.doc, arg_strings s)

length-replicate {ℓ} : {A : Type ℓ} (n : ℕ) (a : A) → length (replicate n a) ≡ n
length-replicate zero a = refl
length-replicate (suc n) a = omega (arith, length-replicate n a)

length-map {ℓ} : {A B : Type ℓ} (f : A → B) (xs : List A) → length (map f xs) ≡ length xs
length-map f [] = refl
length-map f (x ∷ xs) = omega (arith, length-map f xs)

-- A zip with a list that is at least as long
length-zip_with {ℓ} :
    {A B C : Type ℓ} (f : A → B → C) (xs : List A) (ys : List B)
    → length xs ≤ length ys
    → length (zip_with f xs ys) ≡ length xs
length-zip_with f [] ys h = refl
length-zip_with f (x ∷ xs) [] h = absurd (omega arith)
length-zip_with f (x ∷ xs) (y ∷ ys) h = omega (arith, length-zip_with f xs ys (omega arith))

length-def_values : (s : Signature) → length s.args ≤ length (def_values s)
unfolding def_values
length-def_values s =
    let equals : Text → Text = λ d. codes "=" ++ d in
    let n : ℕ = length s.args - length s.defaults in
    rw
      (
        length-append (replicate n []) (map equals s.defaults),
        length-replicate {A = Text} n [],
        length-map equals s.defaults,
      )
      (omega arith)

length-starred : (stars : Text) (name : Option Text) → length (starred stars name) ≡ present name
length-starred stars none = refl
length-starred stars (some name) = refl

length-arg_strings : (s : Signature) → length (arg_strings s) ≡ arg_count s
unfolding arg_strings arg_count
length-arg_strings s =
    let joined : Text → Text → Text = λ arg def_value. arg ++ def_value in
    let last : List Text = starred (codes "**") s.varkw in
    rw
      (
        length-append (zip_with joined s.args (def_values s)) (starred (codes "*") s.vargs ++ last),
        length-append (starred (codes "*") s.vargs) last,
        length-zip_with joined s.args (def_values s) (length-def_values s),
        length-starred (codes "*") s.vargs,
        length-starred (codes "**") s.varkw,
      )
      (omega arith)

read_texts-map :
    (ts : List Text) (rest : List Field)
    → read_texts (length ts) (map text ts ++ rest) ≡ some (ts, rest)
read_texts-map [] rest = refl
read_texts-map (t ∷ ts) rest = rw (read_texts-map ts rest) refl

read_signature-shown :
    (s : Signature) (rest : List Field)
    → read_signature (signature_fields s ++ rest) ≡ some (shown s, rest)
unfolding signature_fields
read_signature-shown s rest =
    rw (← length-arg_strings s) (rw (read_texts-map (arg_strings s) rest) refl)

read_signatures-shown :
    (sigs : List Signature) (rest : List Field)
    → read_signatures (length sigs) (all_fields sigs ++ rest) ≡ some (map shown sigs, rest)
read_signatures-shown [] rest = refl
read_signatures-shown (s ∷ sigs) rest =
    rw
      (
        append_assoc (signature_fields s) (all_fields sigs) rest,
        read_signature-shown s (all_fields sigs ++ rest),
        read_signatures-shown sigs rest,
      )
      refl

-- Of the message with any signatures, followed by anything, a reader that takes as many overloads and strings
-- as the counts say reads the docs, cut to 4096 characters, and the strings of the arguments, and nothing of
-- what follows.
pub read_result-signatures_result :
    (sigs : List Signature) (rest : List Field)
    → read_result (signatures_result sigs ++ rest) ≡ some (map shown sigs, rest)
unfolding signatures_result
read_result-signatures_result sigs rest = rw (read_signatures-shown sigs rest) refl

-- The text of a default, counted from the end of the arguments
abbrev pub default_text : Option Text → Text
default_text none = []
default_text (some d) = codes "=" ++ d

abbrev pub shown_default : Signature → ℕ → Text
shown_default s i =
    if ltb (i + length s.defaults) (length s.args)
    then []
    else default_text (get_elem? s.defaults (i + length s.defaults - length s.args))

get_elem?-zip_with {ℓ} :
    {A B C : Type ℓ} (f : A → B → C) (xs : List A) (ys : List B) (i : ℕ) {x : A} {y : B}
    → get_elem? xs i ≡ some x
    → get_elem? ys i ≡ some y
    → get_elem? (zip_with f xs ys) i ≡ some (f x y)
get_elem?-zip_with f [] ys i h k = absurd (cc h)
get_elem?-zip_with f (x ∷ xs) [] i h k = absurd (cc k)
get_elem?-zip_with f (x ∷ xs) (y ∷ ys) zero h k = ground (arith, h, k)
get_elem?-zip_with f (x ∷ xs) (y ∷ ys) (suc i) h k = get_elem?-zip_with f xs ys i h k

get_elem?-append_some {ℓ} :
    {A : Type ℓ} (xs ys : List A) (i : ℕ) {x : A}
    → get_elem? xs i ≡ some x
    → get_elem? (xs ++ ys) i ≡ some x
get_elem?-append_some [] ys i h = absurd (cc h)
get_elem?-append_some (x ∷ xs) ys zero h = h
get_elem?-append_some (x ∷ xs) ys (suc i) h = get_elem?-append_some xs ys i h

get_elem?-equals :
    (defaults : List Text) (i : ℕ)
    → i < length defaults
    → get_elem? (map (λ d. codes "=" ++ d) defaults) i ≡ some (default_text (get_elem? defaults i))
get_elem?-equals [] i h = absurd (omega arith)
get_elem?-equals (d ∷ defaults) zero h = refl
get_elem?-equals (d ∷ defaults) (suc i) h = get_elem?-equals defaults i (omega arith)

-- The i-th of some empty texts and the defaults
get_elem?-padded :
    (n : ℕ) (defaults : List Text) (i : ℕ)
    → i < n + length defaults
    → get_elem? (replicate n [] ++ map (λ d. codes "=" ++ d) defaults) i
      ≡ some (if ltb i n then [] else default_text (get_elem? defaults (i - n)))
get_elem?-padded zero defaults i h =
    let z : i - 0 ≡ i = omega arith in
    rw z (get_elem?-equals defaults i (omega arith) ∙ ground arith)
get_elem?-padded (suc n) defaults zero h = ground arith
get_elem?-padded (suc n) defaults (suc i) h = ground (arith, get_elem?-padded n defaults i)

get_elem?-def_values :
    (s : Signature) (i : ℕ)
    → length s.defaults ≤ length s.args
    → i < length s.args
    → get_elem? (def_values s) i ≡ some (shown_default s i)
unfolding def_values
get_elem?-def_values s i h k =
    let a : ℕ = length s.args in
    let d : ℕ = length s.defaults in
    let test : ltb (i + d) a ≡ ltb i (a - d) = ground arith in
    let place : i + d - a ≡ i - (a - d) = omega arith in
    rw (test, place) (get_elem?-padded (a - d) s.defaults i (omega arith))

lt_of_get_elem? {ℓ} :
    {A : Type ℓ} (xs : List A) (i : ℕ) {x : A} → get_elem? xs i ≡ some x → i < length xs
lt_of_get_elem? [] i h = absurd (cc h)
lt_of_get_elem? (x ∷ xs) zero h = omega arith
lt_of_get_elem? (x ∷ xs) (suc i) h = omega (arith, lt_of_get_elem? xs i h)

-- Where there are no more defaults than arguments, the defaults belong to the last arguments: the string of
-- an argument is its name, followed by its default if it has one.
pub arg_strings-shown_default :
    (s : Signature) (i : ℕ) {arg : Text}
    → length s.defaults ≤ length s.args
    → get_elem? s.args i ≡ some arg
    → get_elem? (arg_strings s) i ≡ some (arg ++ shown_default s i)
unfolding arg_strings
arg_strings-shown_default s i {arg} h k = get_elem?-append_some _ _ i (
    get_elem?-zip_with (λ a d. a ++ d) s.args (def_values s) i k
      (get_elem?-def_values s i h (lt_of_get_elem? s.args i k)))
