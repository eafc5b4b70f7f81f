-- ===== src/SafeRepr/Shape.antt =====
-- Objects as `SafeRepr` sees them.
use python_vscode.Prelude.{ℕ, suc, Text, Bool}

pub record Brackets : Type 0 where
  pub prefix : Text
  pub suffix : Text
  pub comma_after_single_element : Bool

pub record DictBrackets : Type 0 where
  pub prefix : Text
  pub suffix : Text
  pub item_prefix : Text
  pub item_sep : Text
  pub item_suffix : Text

mutual
  pub data Object : Type 0 where
    -- a text or bytes object, with its length and its repr
    string : ℕ → Text → Object
    -- an object that is not iterable, or whose repr is safe, with its repr
    other : Text → Object
    -- a tuple, list, set, frozenset or deque that does not override `__repr__`
    collection : Brackets → Objects → Object
    -- a dict or OrderedDict that does not override `__repr__`
    dict : DictBrackets → Pairs → Object
    -- any other iterable: the name of its type, its repr, and does it have `len`?
    iterable : Text → Text → Bool → Objects → Object

  pub data Objects : Type 0 where
    nil : Objects
    cons : Object → Objects → Objects
    -- an item that is the container
    itself : Objects → Objects

  pub data Pairs : Type 0 where
    end : Pairs
    pair : Object → Object → Pairs → Pairs
    -- a value that is the dictionary, and one whose lookup raises
    pair_itself pair_unread : Object → Pairs → Pairs

abbrev pub size : Objects → ℕ
size nil = 0
size (cons o items) = suc (size items)
size (itself items) = suc (size items)

abbrev pub size_pairs : Pairs → ℕ
size_pairs end = 0
size_pairs (pair k v pairs) = suc (size_pairs pairs)
size_pairs (pair_itself k pairs) = suc (size_pairs pairs)
size_pairs (pair_unread k pairs) = suc (size_pairs pairs)
