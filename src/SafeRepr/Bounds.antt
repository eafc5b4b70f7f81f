-- ===== src/SafeRepr/Bounds.antt =====
-- How long the repr of a nested object can be.
use native.Mathlib.Nat.{suc-mul}
use python_vscode.Prelude.{
  ℕ, zero, suc, ◌+◌, ◌-◌, ◌*◌, ◌≤◌, ◌<◌, ◌≡◌, Text, Bool, true, false, ◌++◌, arith, leb,
  if◌then◌else◌, length, length-append, codes, ap,
}
use python_vscode.SafeRepr.Shape.{
  Brackets, DictBrackets, Object, string, other, collection, dict, iterable, Objects, nil, cons,
  itself, Pairs, end, pair, pair_itself, pair_unread, size,
}
use python_vscode.SafeRepr.Truncate.{truncate_lem, repr_obj}
use python_vscode.SafeRepr.{
  repr, repr_items, repr_pairs, is_long_iter, repr_long_iter, separator, elided, after_loop, dots,
  maxcollection, levels, safe_repr,
}

-- The brackets of the built-in containers are within these sizes, and the texts by which long
-- iterables are shown, which hold the name of a type, are at most `n` long.
abbrev pub BracketsFit : Text → Text → Type 0
BracketsFit prefix suffix = length prefix + length suffix ≤ 16

abbrev pub ItemsFit : DictBrackets → Type 0
ItemsFit b = length b.item_prefix + length b.item_sep + length b.item_suffix ≤ 8

unfoldable mutual
  pub Fits : ℕ → Object → Type 0
  Fits n (string k t) = Unit
  Fits n (other t) = Unit
  Fits n (collection b items) = BracketsFit b.prefix b.suffix × FitsAll n items
  Fits n (dict b pairs) = BracketsFit b.prefix b.suffix × ItemsFit b × FitsPairs n pairs
  Fits n (iterable name t sized items) = length (repr_long_iter name sized (size items)) ≤ n

  pub FitsAll : ℕ → Objects → Type 0
  FitsAll n nil = Unit
  FitsAll n (cons o items) = Fits n o × FitsAll n items
  FitsAll n (itself items) = FitsAll n items

  pub FitsPairs : ℕ → Pairs → Type 0
  FitsPairs n end = Unit
  FitsPairs n (pair k v pairs) = Fits n k × Fits n v × FitsPairs n pairs
  FitsPairs n (pair_itself k pairs) = Fits n k × FitsPairs n pairs
  FitsPairs n (pair_unread k pairs) = Fits n k × FitsPairs n pairs

-- What a text takes inside a container.
length-repr_obj_inner :
    (t : Text) (level outer : ℕ) → 0 < level → length (repr_obj t level 30 outer) ≤ 33
unfolding repr_obj
length-repr_obj_inner t level outer h = ground (arith, truncate_lem 30 t)

length-repr_obj_outer :
    (t : Text) (outer : ℕ) → 3 ≤ outer → length (repr_obj t 0 30 outer) ≤ outer + 3
unfolding repr_obj
length-repr_obj_outer t outer h = ground (arith, truncate_lem outer t h)

length-separator : (later : Bool) → length (separator later) ≤ 2
length-separator true = omega arith
length-separator false = omega arith

length-elided : (p s : Text) → length (elided p s) ≡ length p + length s + 3
length-elided p s = omega (arith, length-append p (dots ++ s))

length-after_loop : (b : Brackets) (level count : ℕ) → length (after_loop b level count) ≤ 1
length-after_loop b level count = ground arith

-- One more item: the count goes down by one, which leaves `k` for the item and its separator.
length-step :
    (body : Text) (count k v r : ℕ) (later : Bool)
    → length body ≤ v + r
    → r ≤ (count - 1) * k + 5
    → v + 2 ≤ k
    → length (separator later ++ (if leb count 1 then dots else body)) ≤ count * k + 5
length-step body zero k v r later p q f =
    omega (arith, length-append (separator later) dots, length-separator later)
length-step body (suc zero) k v r later p q f =
    omega (arith, length-append (separator later) dots, length-separator later)
length-step body (suc (suc count)) k v r later p q f = go (leb (suc (suc count)) 1) (ground arith)
  where
    go :
        (b : Bool)
        → b ≡ false
        → length (separator later ++ (if b then dots else body)) ≤ suc (suc count) * k + 5
    go true h = cc
    go false h =
        let e : suc (suc count) - 1 ≡ suc count = omega arith in
        let whole : length (separator later ++ body) ≤ suc (suc count) * k + 5 = omega (
          arith,
          length-append (separator later) body,
          length-separator later,
          suc-mul (suc count) k,
          ap (λ (x : ℕ). x * k) e,
        ) in
        whole

module _ (n w level : ℕ) (enough : 19 ≤ w)
    (fits : (o : Object) → Fits n o → length (repr o (suc level)) ≤ w) where
  length-repr_items :
      (items : Objects) (b : Brackets) (count : ℕ) (later : Bool)
      → BracketsFit b.prefix b.suffix
      → FitsAll n items
      → length (repr_items items level b count later) ≤ count * (w + 2) + 5
  unfolding repr_items FitsAll
  length-repr_items nil b count later f h = omega (arith, length-after_loop b level count)
  length-repr_items (cons o items) b count later f h =
      length-step _ count (w + 2) w _ later
        (omega (
          arith,
          length-append (repr o (suc level)) (repr_items items level b (count - 1) true),
          fits o h.0,
        ))
        (length-repr_items items b (count - 1) true f h.1) (omega arith)
  length-repr_items (itself items) b count later f h =
      length-step _ count (w + 2) w _ later
        (omega (
          arith,
          length-append (elided b.prefix b.suffix) (repr_items items level b (count - 1) true),
          length-elided b.prefix b.suffix,
        ))
        (length-repr_items items b (count - 1) true f h) (omega arith)

  -- The parts of an entry: brackets, key, separator, value and brackets again.
  length-entry :
      (b : DictBrackets) (key value rest : Text)
      → ItemsFit b
      → length key ≤ w
      → length value ≤ w
      → length (b.item_prefix ++ (key ++ (b.item_sep ++ (value ++ (b.item_suffix ++ rest)))))
        ≤ (2 * w + 8) + length rest
  length-entry b key value rest f k v = omega (
    arith,
    length-append b.item_prefix (key ++ (b.item_sep ++ (value ++ (b.item_suffix ++ rest)))),
    length-append key (b.item_sep ++ (value ++ (b.item_suffix ++ rest))),
    length-append b.item_sep (value ++ (b.item_suffix ++ rest)),
    length-append value (b.item_suffix ++ rest),
    length-append b.item_suffix rest,
  )

  length-repr_pairs :
      (pairs : Pairs) (b : DictBrackets) (count : ℕ) (later : Bool)
      → BracketsFit b.prefix b.suffix
      → ItemsFit b
      → FitsPairs n pairs
      → length (repr_pairs pairs level b count later) ≤ count * (2 * w + 10) + 5
  unfolding repr_pairs FitsPairs
  length-repr_pairs end b count later f g h = omega arith
  length-repr_pairs (pair k v pairs) b count later f g h =
      length-step _ count (2 * w + 10) (2 * w + 8) _ later
        (length-entry b (repr k (suc level)) (repr v (suc level)) _ g (fits k h.0) (fits v h.1))
        (length-repr_pairs pairs b (count - 1) true f g h.2) (omega arith)
  length-repr_pairs (pair_itself k pairs) b count later f g h =
      length-step _ count (2 * w + 10) (2 * w + 8) _ later
        (length-entry b (repr k (suc level)) (elided b.prefix b.suffix) _ g (fits k h.0)
          (omega (arith, length-elided b.prefix b.suffix)))
        (length-repr_pairs pairs b (count - 1) true f g h.1) (omega arith)
  length-repr_pairs (pair_unread k pairs) b count later f g h =
      length-step _ count (2 * w + 10) (2 * w + 8) _ later
        (length-entry b (repr k (suc level)) (codes "<?>") _ g (fits k h.0) (omega arith))
        (length-repr_pairs pairs b (count - 1) true f g h.1) (omega arith)

-- The widths of what stands at the levels 2, 1 and 0, but for texts at level 0.
abbrev pub narrow : ℕ → ℕ
narrow n = n + 33

abbrev pub middle : ℕ → ℕ
middle n = 10 * (2 * narrow n + 10) + 21

abbrev pub wide : ℕ → ℕ
wide n = 15 * (2 * middle n + 10) + 21

-- Past the last limit.
repr-le_elided :
    (n level : ℕ) (o : Object) → 2 ≤ level → Fits n o → length (repr o level) ≤ narrow n
unfolding repr Fits
repr-le_elided n level (string k t) l h =
    omega (arith, length-repr_obj_inner t level 65536 (omega arith))
repr-le_elided n level (other t) l h =
    omega (arith, length-repr_obj_inner t level 65536 (omega arith))
repr-le_elided n level (collection b items) l h = ground (arith, length-elided b.prefix b.suffix)
repr-le_elided n level (dict b pairs) l h =
    ground (arith, length-elided b.prefix b.suffix, length-append b.prefix b.suffix)
repr-le_elided n level (iterable name t sized items) l h =
    ground (arith, length-repr_obj_inner t level 65536)

-- A container whose items take at most `w` characters.
abbrev pub container_width : ℕ → ℕ → ℕ
container_width w level = maxcollection level * (2 * w + 10) + 21

collection-le :
    (n w level : ℕ) (b : Brackets) (items : Objects)
    → 19 ≤ w
    → level ≤ 1
    → ((i : Object) → Fits n i → length (repr i (suc level)) ≤ w)
    → Fits n (collection b items)
    → length (repr (collection b items) level) ≤ container_width w level
unfolding repr Fits
collection-le n w level b items e l fits h =
    let inner : Text = repr_items items level b (maxcollection level) false in
    let shown : leb levels level ≡ false = ground arith in
    rw shown (
      ground (
        arith,
        length-append b.prefix (inner ++ b.suffix),
        length-append inner b.suffix,
        length-repr_items n w level e fits items b (maxcollection level) false h.0 h.1,
      ))

dict-le :
    (n w level : ℕ) (b : DictBrackets) (pairs : Pairs)
    → 19 ≤ w
    → level ≤ 1
    → ((i : Object) → Fits n i → length (repr i (suc level)) ≤ w)
    → Fits n (dict b pairs)
    → length (repr (dict b pairs) level) ≤ container_width w level
unfolding repr Fits
dict-le n w level b pairs e l fits h =
    let inner : Text = repr_pairs pairs level b (maxcollection level) false in
    ground (
      arith,
      length-append b.prefix (inner ++ b.suffix),
      length-append inner b.suffix,
      length-append b.prefix b.suffix,
      length-repr_pairs n w level e fits pairs b (maxcollection level) false h.0 h.1 h.2,
    )

repr-le_inner : (n : ℕ) (o : Object) → Fits n o → length (repr o 1) ≤ middle n
repr-le_inner n (string k t) h =
    unfold repr in omega (arith, length-repr_obj_inner t 1 65536 (omega arith))
repr-le_inner n (other t) h =
    unfold repr in omega (arith, length-repr_obj_inner t 1 65536 (omega arith))
repr-le_inner n (collection b items) h =
    collection-le n (narrow n) 1 b items (omega arith) (omega arith)
      (λ i. repr-le_elided n 2 i (omega arith)) h
repr-le_inner n (dict b pairs) h =
    dict-le n (narrow n) 1 b pairs (omega arith) (omega arith)
      (λ i. repr-le_elided n 2 i (omega arith)) h
repr-le_inner n (iterable name t sized items) h =
    unfold repr Fits in ground (arith, length-repr_obj_inner t 1 65536)

-- The bound for each kind of object at the outer level.
abbrev pub outer_width : ℕ → Object → ℕ
outer_width n (string k t) = 65539
outer_width n (other t) = 65539
outer_width n (collection b items) = wide n
outer_width n (dict b pairs) = wide n
outer_width n (iterable name t sized items) = n + 65539

choose-le :
    (b : Bool) (x y : Text) (n m : ℕ)
    → length x ≤ n
    → length y ≤ m
    → length (if b then x else y) ≤ n + m
choose-le true x y n m p q = omega (arith, p)
choose-le false x y n m p q = omega (arith, q)

length-iterable-le :
    (n : ℕ) (name t : Text) (sized : Bool) (items : Objects)
    → Fits n (iterable name t sized items)
    → length (repr (iterable name t sized items) 0) ≤ n + 65539
unfolding repr Fits
length-iterable-le n name t sized items h =
    choose-le (is_long_iter (iterable name t sized items) 0) _ _ n 65539 h
      (length-repr_obj_outer t 65536 (omega arith))

-- If the brackets are no longer than those of the built-in containers, and a long iterable is shown
-- in at most `n` characters, then a container is shown in at most `wide n = 600 * n + 23601`
-- characters however deep and long it is, and any other object in at most 65539, or in `n` more if
-- it is an iterable.
pub length-safe_repr-le : (n : ℕ) (o : Object) → Fits n o → length (safe_repr o) ≤ outer_width n o
length-safe_repr-le n (string k t) h =
    unfold safe_repr in length-repr_obj_outer t 65536 (omega arith)
length-safe_repr-le n (other t) h = unfold safe_repr in length-repr_obj_outer t 65536 (omega arith)
length-safe_repr-le n (collection b items) h =
    unfold safe_repr in
    collection-le n (middle n) 0 b items (omega arith) (omega arith) (repr-le_inner n) h
length-safe_repr-le n (dict b pairs) h =
    unfold safe_repr in
    dict-le n (middle n) 0 b pairs (omega arith) (omega arith) (repr-le_inner n) h
length-safe_repr-le n (iterable name t sized items) h =
    unfold safe_repr in length-iterable-le n name t sized items h
