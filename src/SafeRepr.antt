-- ===== src/SafeRepr.antt =====
-- `SafeRepr` of pythonFiles/PythonTools/visualstudio_py_util.py: a repr of bounded length.
-- An object is what `_repr` finds out about it; the texts of `repr()` and `__name__`, and the keys
-- of a dictionary in the order of `sorted`, come with it. An item that `is` its container is
-- `itself`; other cycles are not modelled.
pub mod Shape
pub mod Truncate
pub mod Bounds
mod Tests
use python_vscode.Prelude.{
  ℕ, zero, suc, ◌+◌, ◌-◌, Text, Bool, true, false, ◌&&◌, ◌||◌, Option, none, some, List, [], ◌∷◌,
  ◌++◌, ltb, leb, ◌==◌, if◌then◌else◌, length, take, drop, codes,
}
use Shape.{
  Brackets, DictBrackets, Object, string, other, collection, dict, iterable, Objects, nil, cons,
  itself, Pairs, end, pair, pair_itself, pair_unread, size, size_pairs,
}
use Truncate.{repr_obj, decimal}

abbrev pub maxstring_outer : ℕ
maxstring_outer = 65536

abbrev pub maxstring_inner : ℕ
maxstring_inner = 30

abbrev pub maxother_outer : ℕ
maxother_outer = 65536

abbrev pub maxother_inner : ℕ
maxother_inner = 30

-- `maxcollection`, and its length
abbrev pub levels : ℕ
levels = 2

abbrev pub maxcollection : ℕ → ℕ
maxcollection level = if level == 0 then 15 else 10

abbrev pub dots : Text
dots = codes "..."

abbrev pub comma_space : Text
comma_space = codes ", "

abbrev pub repr_str : Text → ℕ → Text
repr_str t level = repr_obj t level maxstring_inner maxstring_outer

abbrev pub repr_other : Text → ℕ → Text
repr_other t level = repr_obj t level maxother_inner maxother_outer

-- `_repr_long_iter`, where `len` is known or raises
abbrev pub repr_long_iter : Text → Bool → ℕ → Text
repr_long_iter name true n = codes "<" ++ (name ++ (codes ", len() = " ++ (decimal n ++ codes ">")))
repr_long_iter name false n = codes "<" ++ (name ++ codes ">")

-- Past the limit by `len`, or by the index that `enumerate` reaches.
abbrev too_long : Bool → ℕ → ℕ → Bool
too_long true n level = ltb (maxcollection level) n
too_long false n level = ltb (maxcollection level + 1) n

-- `_is_long_iter`; an item that is its container is followed until the levels are used up.
unfoldable mutual
  pub is_long_iter : Object → ℕ → Bool
  is_long_iter (string n t) level = ltb maxstring_inner n
  is_long_iter (other t) level = false
  is_long_iter (collection b items) level =
      if leb levels level
      then true
      else too_long true (size items) level || any_long items (suc level)
  is_long_iter (dict b pairs) level =
      if leb levels level
      then true
      else too_long true (size_pairs pairs) level || any_long_key pairs (suc level)
  is_long_iter (iterable name t sized items) level =
      if leb levels level
      then true
      else too_long sized (size items) level || any_long items (suc level)

  pub any_long : Objects → ℕ → Bool
  any_long nil level = false
  any_long (cons o items) level = is_long_iter o level || any_long items level
  any_long (itself items) level = true

  pub any_long_key : Pairs → ℕ → Bool
  any_long_key end level = false
  any_long_key (pair k v pairs) level = is_long_iter k level || any_long_key pairs level
  any_long_key (pair_itself k pairs) level = is_long_iter k level || any_long_key pairs level
  any_long_key (pair_unread k pairs) level = is_long_iter k level || any_long_key pairs level

-- A container at a level past the last limit, and an item that is its container.
abbrev pub elided : Text → Text → Text
elided prefix suffix = prefix ++ (dots ++ suffix)

abbrev pub separator : Bool → Text
separator true = comma_space
separator false = []

-- The element count at which `else:` of the loop finds that there was one element.
abbrev pub after_loop : Brackets → ℕ → ℕ → Text
after_loop b level count =
    if b.comma_after_single_element && count == maxcollection level - 1 then codes "," else []

-- `''.join(self._repr(obj, level))`. In the loops `count` is what is left of the limit and `later`
-- whether an item came before.
unfoldable mutual
  unfolding is_long_iter

  pub repr : Object → ℕ → Text
  repr (string n t) level = repr_str t level
  repr (other t) level = repr_other t level
  repr (collection b items) level =
      b.prefix
      ++ ((if leb levels level then dots else repr_items items level b (maxcollection level) false)
          ++ b.suffix)
  repr (dict b pairs) level =
      if size_pairs pairs == 0
      then b.prefix ++ b.suffix
      else if leb levels level
      then elided b.prefix b.suffix
      else b.prefix ++ (repr_pairs pairs level b (maxcollection level) false ++ b.suffix)
  repr (iterable name t sized items) level =
      if is_long_iter (iterable name t sized items) 0
      then repr_long_iter name sized (size items)
      else repr_other t level

  pub repr_items : Objects → ℕ → Brackets → ℕ → Bool → Text
  repr_items nil level b count later = after_loop b level count
  repr_items (cons o items) level b count later =
      let rest = repr o (suc level) ++ repr_items items level b (count - 1) true in
      separator later ++ (if leb count 1 then dots else rest)
  repr_items (itself items) level b count later =
      let rest = elided b.prefix b.suffix ++ repr_items items level b (count - 1) true in
      separator later ++ (if leb count 1 then dots else rest)

  pub repr_pairs : Pairs → ℕ → DictBrackets → ℕ → Bool → Text
  repr_pairs end level b count later = []
  repr_pairs (pair k v pairs) level b count later =
      let rest =
        b.item_prefix
        ++ (repr k (suc level)
            ++ (b.item_sep
                ++ (repr v (suc level)
                    ++ (b.item_suffix ++ repr_pairs pairs level b (count - 1) true)))) in
      separator later ++ (if leb count 1 then dots else rest)
  repr_pairs (pair_itself k pairs) level b count later =
      let rest =
        b.item_prefix
        ++ (repr k (suc level)
            ++ (b.item_sep
                ++ (elided b.prefix b.suffix
                    ++ (b.item_suffix ++ repr_pairs pairs level b (count - 1) true)))) in
      separator later ++ (if leb count 1 then dots else rest)
  repr_pairs (pair_unread k pairs) level b count later =
      let rest =
        b.item_prefix
        ++ (repr k (suc level)
            ++ (b.item_sep
                ++ (codes "<?>"
                    ++ (b.item_suffix ++ repr_pairs pairs level b (count - 1) true)))) in
      separator later ++ (if leb count 1 then dots else rest)

-- `__call__`; `_repr` of these objects raises nothing.
unfoldable pub safe_repr : Object → Text
unfolding repr
safe_repr o = repr o 0
