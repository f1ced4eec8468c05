-- ===== src/Python/Object.antt =====
-- The Python objects that crates/futu/src/python makes with `pyo3`: `None`, numbers, strings, lists
-- and dicts. `F` is the type of `f64`. A dict keeps its keys in the order in which they were first
-- set.
use Prim.Native.String.{String}
use text.Mathlib.Text.{◌==◌}
use nautilus_futu.Prelude.{ℕ, List, [], ◌∷◌, Bool, Option, none, some, if◌then◌else◌}
use nautilus_futu.Prelude.Words.{ℤ, pos}
use nautilus_futu.Prelude.Text.{Text}

mutual
  pub data Py (F : Type 0) : Type 0 where
    none_object : Py F
    bool : Bool → Py F
    int : ℤ → Py F
    float : F → Py F
    str : Text → Py F
    list : Items F → Py F
    dict : Fields F → Py F

  pub data Items (F : Type 0) : Type 0 where
    nil : Items F
    cons : Py F → Items F → Items F

  pub data Fields (F : Type 0) : Type 0 where
    empty : Fields F
    field : String → Py F → Fields F → Fields F

module _ {F : Type 0} where
  -- `PyDict::set_item`
  unfoldable pub set_item : String → Py F → Fields F → Fields F
  set_item k v empty = field k v empty
  set_item k v (field j w fs) =
      let rest = set_item k v fs in if j == k then field j v fs else field j w rest

  -- `get_item`
  unfoldable pub get_item : String → Fields F → Option (Py F)
  get_item k empty = none
  get_item k (field j v fs) = let rest = get_item k fs in if j == k then some v else rest

  -- What a Python object has under a key.
  abbrev pub at_key : String → Py F → Option (Py F)
  at_key k (dict d) = get_item k d
  at_key k none_object = none
  at_key k (bool b) = none
  at_key k (int n) = none
  at_key k (float f) = none
  at_key k (str s) = none
  at_key k (list l) = none

  unfoldable pub set_items : List (String × Py F) → Fields F → Fields F
  set_items [] d = d
  set_items ((k, v) ∷ kvs) d = set_items kvs (set_item k v d)

  -- A new dict, after these calls of `set_item`.
  abbrev pub dict_of : List (String × Py F) → Py F
  dict_of kvs = dict (set_items kvs empty)

  abbrev pub uint : ℕ → Py F
  uint n = int (pos n)

  abbrev pub opt : {A : Type 0} → (A → Py F) → Option A → Py F
  opt f none = none_object
  opt f (some a) = f a

  abbrev pub items_of : {A : Type 0} → (A → Py F) → List A → Items F
  items_of f [] = nil
  items_of f (a ∷ l) = cons (f a) (items_of f l)

  -- A list that is filled by `append`, or that `pyo3` makes of a vector.
  abbrev pub list_of : {A : Type 0} → (A → Py F) → List A → Py F
  list_of f l = list (items_of f l)

abbrev pub unwrap_or : {A : Type 0} → A → Option A → A
unwrap_or a none = a
unwrap_or a (some b) = b

-- The calls of `set_item`, or of `append`, under an `if let Some(a)`.
abbrev pub when : {A B : Type 0} → Option A → (A → List B) → List B
when none f = []
when (some a) f = f a
