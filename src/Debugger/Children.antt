-- ===== src/Debugger/Children.antt =====
-- The children of an object that the client expands: `Thread.enum_child_locally`.
pub mod Listed
use python_vscode.Prelude.{
  ℕ, zero, suc, ◌+◌, ◌-◌, Text, Bool, true, false, not, ◌&&◌, Option, none, some, List, [], ◌∷◌,
  ◌++◌, ltb, if◌then◌else◌, codes, same, length, drop,
}
use python_vscode.Prelude.Texts.{starts_with, ends_with, is_in}
use python_vscode.Debugger.Reports.{Flags, no_flags}

-- The value of a child: an object of the program, a SynthesizedValue, or a text
pub data Value (A : Type 0) : Type 0 where
  object : A → Value A
  synthesized message : Text → Value A

-- A name, an expression if there is one, a value and flags
pub record Child (A : Type 0) : Type 0 where
  pub name : Text
  pub expression : Option Text
  pub value : Value A
  pub flags : Flags

-- What the loop over the items sees in one round: the repr of the key, the item, and whether the object has an
-- item under the key as its repr is evaluated.
pub record Row (A : Type 0) : Type 0 where
  pub key_repr : Text
  pub item : A
  pub is_found : Bool

-- The rounds of an iteration, and whether it ends by raising
abbrev pub Rows : Type 0 → Type 0
Rows A = List (Row A) × Bool

-- How an object is iterated: as its own iterator, as a dictionary by viewitems() or items(), each none where it
-- raises, as another iterable, or not, where the tests for that raise or it is none
pub data Items (A : Type 0) : Type 0 where
  own_iterator failing : Items A
  dictionary : Option (Rows A) → Option (Rows A) → Items A
  iterable : Rows A → Items A

-- What is asked of an object: `dir` of it and of its class, the names in `__dict__` and `__slots__`, its
-- attributes with whether they are methods, none where getting one raises, and its items.
pub record Inspected (A : Type 0) : Type 0 where
  pub dir_names : List Text
  pub class_names : List Text
  pub dict_names : List Text
  pub slot_names : List Text
  pub attribute : Text → Option (A × Bool)
  pub items : Items A

abbrev pub is_special : Text → Bool
is_special name = starts_with (codes "__") name && ends_with (codes "__") name

abbrev pub runs_method : Flags
runs_method = record no_flags { method_call = true }

abbrev pub has_effects : Flags
has_effects = record no_flags { method_call = true; side_effects = true }

-- A method that comes from the class is passed over.
abbrev pub is_class_method : {A : Type 0} → Inspected A → Text → Bool → Bool
is_class_method o name is_method =
    is_in name o.class_names
    && (not (is_in name o.dict_names) && (not (is_in name o.slot_names) && is_method))

abbrev pub halted : {A : Type 0} → Child A
halted = record {
  name = codes "[...]";
  expression = none;
  value = message (codes "Evaluation halted because sequence has too many items");
  flags = no_flags;
}

-- An iteration that raises before the loop is broken off leaves no child at all.
abbrev pub all_or_none : {A : Type 0} → Bool → List (Child A) × Bool → List (Child A)
all_or_none raises (children, is_broken) = if raises && not is_broken then [] else children

module _ {A : Type 0} (decimal : ℕ → Text) (expr : Text) where
  abbrev pub attribute_child : Inspected A → Text → Option (A × Bool) → List (Child A)
  attribute_child o name none = []
  attribute_child o name (some (value, is_method)) =
      if is_class_method o name is_method
      then []
      else (record {
        name = name;
        expression = some (expr ++ (codes "." ++ name));
        value = object value;
        flags = no_flags;
      }
          ∷ [])

  -- The loop over the attributes
  unfoldable pub attributes : Inspected A → List Text → List (Child A)
  attributes o [] = []
  attributes o (name ∷ names) =
      (if is_special name then [] else attribute_child o name (o.attribute name))
      ++ attributes o names

  -- An item by its key or, where that raises, by its index
  unfoldable pub item_expression : Text → Text → ℕ → Row A → Text
  item_expression enum_var enum_expr index row =
      if row.is_found
      then expr ++ (codes "[" ++ (row.key_repr ++ codes "]"))
      else codes "next((v for i, "
        ++ (enum_var
            ++ (codes " in enumerate("
                ++ (enum_expr ++ (codes ") if i == " ++ (decimal index ++ codes "))")))))

  unfoldable pub item_child : Text → Text → ℕ → Row A → Child A
  unfolding item_expression
  item_child enum_var enum_expr index row = record {
    name = codes "[" ++ (row.key_repr ++ codes "]");
    expression = some (item_expression enum_var enum_expr index row);
    value = object row.item;
    flags = no_flags;
  }

  -- The loop over the items, with whether it is broken off
  unfoldable pub add_items : Text → Text → ℕ → List (Row A) → List (Child A) → List (Child A) × Bool
  unfolding item_child
  add_items enum_var enum_expr index [] children = (children, false)
  add_items enum_var enum_expr index (row ∷ rows) children =
      let rest =
        add_items enum_var enum_expr (suc index) rows
          (children ++ item_child enum_var enum_expr index row ∷ []) in
      if ltb 10000 (length children) then (children ++ halted ∷ [], true) else rest

  abbrev pub from_rows : Text → Text → Rows A → List (Child A) → List (Child A)
  from_rows enum_var enum_expr (rows, raises) children =
      all_or_none raises (add_items enum_var enum_expr 0 rows children)

  abbrev pub method_child : Text → Child A
  method_child name = record {
    name = name;
    expression = some (expr ++ (codes "." ++ name));
    value = synthesized [];
    flags = runs_method;
  }

  abbrev pub results_view : Child A
  results_view = record {
    name = codes "Results View";
    expression = some (codes "tuple(" ++ (expr ++ codes ")"));
    value = synthesized (codes "Expanding the Results View will run the iterator");
    flags = has_effects;
  }

  abbrev pub from_method : Text → Rows A → List (Child A) → List (Child A)
  from_method name rows children =
      from_rows (codes "(k, v)") (expr ++ (codes "." ++ name)) rows
        (children ++ method_child name ∷ [])

  -- The items of the collection after the attributes
  unfoldable pub with_items : Items A → List (Child A) → List (Child A)
  unfolding add_items
  with_items own_iterator children = children ++ results_view ∷ []
  with_items failing children = children
  with_items (dictionary (some rows) _) children = from_method (codes "viewitems()") rows children
  with_items (dictionary none (some rows)) children = from_method (codes "items()") rows children
  with_items (dictionary none none) children = children
  with_items (iterable rows) children = from_rows (codes "v") expr rows children

  -- `enum_child_locally`, none where the expression cannot be evaluated
  unfoldable pub enum_child_locally : Option (Inspected A) → List (Child A)
  unfolding attributes with_items
  enum_child_locally none = []
  enum_child_locally (some o) = with_items o.items (attributes o o.dir_names)
