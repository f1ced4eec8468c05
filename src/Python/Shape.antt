-- ===== src/Python/Shape.antt =====
-- What Python code may rely on in the objects of crates/futu/src/python: their types, and the keys
-- of dicts.
use Prim.Native.String.{String}
use nautilus_futu.Prelude.{ℕ, ◌≡◌, refl, ◌⊎◌, inl, inr, List, [], ◌∷◌, Bool, Option, none, some}
use nautilus_futu.Prelude.Words.{ℤ, pos}
use nautilus_futu.Prelude.Text.{Text}
use nautilus_futu.Python.Object.{
  Py, none_object, bool, int, float, str, list, Items, nil, cons, at_key, items_of, opt, uint,
}

module _ {F : Type 0} where
  abbrev pub IsBool : Py F → Type 0
  IsBool o = (b : Bool) × (o ≡ bool b)

  abbrev pub IsInt : Py F → Type 0
  IsInt o = (n : ℤ) × (o ≡ int n)

  abbrev pub IsFloat : Py F → Type 0
  IsFloat o = (x : F) × (o ≡ float x)

  abbrev pub IsStr : Py F → Type 0
  IsStr o = (s : Text) × (o ≡ str s)

  -- `None`, or else `P`.
  abbrev pub Maybe : (Py F → Type 0) → Py F → Type 0
  Maybe P o = (o ≡ none_object) ⊎ P o

  abbrev pub Each : (Py F → Type 0) → Items F → Type 0
  Each P nil = Unit {0}
  Each P (cons o l) = P o × Each P l

  -- A list of such objects.
  abbrev pub ListOf : (Py F → Type 0) → Py F → Type 0
  ListOf P o = (l : Items F) × (o ≡ list l) × Each P l

  -- A dict that has such an object under the key.
  abbrev pub Key : String → (Py F → Type 0) → Py F → Type 0
  Key k P o = (v : Py F) × (at_key k o ≡ some v) × P v

  pub opt-Maybe :
      {A : Type 0} (P : Py F → Type 0) (f : A → Py F)
      → ((a : A) → P (f a))
      → (o : Option A) → Maybe P (opt f o)
  opt-Maybe P f h none = inl refl
  opt-Maybe P f h (some a) = inr (h a)

  pub items_of-Each :
      {A : Type 0} (P : Py F → Type 0) (f : A → Py F)
      → ((a : A) → P (f a))
      → (l : List A) → Each P (items_of f l)
  items_of-Each P f h [] = tt
  items_of-Each P f h (a ∷ l) = (h a, items_of-Each P f h l)

  pub opt-int : (o : Option ℤ) → Maybe IsInt (opt int o)
  opt-int o = opt-Maybe IsInt int (λ n. (n, refl)) o

  pub opt-float : (o : Option F) → Maybe IsFloat (opt float o)
  opt-float o = opt-Maybe IsFloat float (λ x. (x, refl)) o

  pub opt-str : (o : Option Text) → Maybe IsStr (opt str o)
  opt-str o = opt-Maybe IsStr str (λ s. (s, refl)) o

  pub opt-uint : (o : Option ℕ) → Maybe IsInt (opt uint o)
  opt-uint o = opt-Maybe IsInt uint (λ n. (pos n, refl)) o
