-- ===== src/Tests/Sample.antt =====
-- Instances of the parameters: integers for floats, and objects that map paths to values for the
-- dynamic values of the Kubernetes API.
use text.Mathlib.TextPositions.{eq_refl}
use statgate.Prelude.{
  ℤ, pos, Bool, true, false, String, Option, none, some, List, [], ◌∷◌, ◌⊎◌, inr, ◌≡◌, refl, ap,
  subst, ◌&&◌, ◌+ℤ◌, ◌-ℤ◌, ◌*ℤ◌, ltb_ℤ, leb_ℤ, eq_ℤ, if◌then◌else◌, str_eq,
}
use statgate.Float64.{Float64}
use statgate.Actions.{Error}
use statgate.VirtualService.{Unstructured}
use statgate.VirtualService.Laws.{IsUnstructured}

-- No property in the tests depends on rounding, so quotients and logarithms may be crude.
instance abbrev pub integer_floats : Float64 ℤ
integer_floats = record {
  literal = λ m k. pos 0;
  of_int = λ n. n;
  to_int = λ n. n;
  add = ◌+ℤ◌;
  sub = ◌-ℤ◌;
  mul = ◌*ℤ◌;
  div = λ a b. a;
  log = λ a. a;
  lt = ltb_ℤ;
  le = leb_ℤ;
  eq = eq_ℤ;
}

abbrev pub path_eq : List String → List String → Bool
path_eq [] [] = true
path_eq (a ∷ p) (b ∷ q) = str_eq a b && path_eq p q
path_eq _ _ = false

path_eq_refl : (p : List String) → path_eq p p ≡ true
path_eq_refl [] = refl
path_eq_refl (a ∷ p) = rw (eq_refl a, path_eq_refl p)

-- An object knows whether it is a map, and its integers, texts and slices by their paths.
mutual
  pub data Object : Type 0 where
    object :
        Bool → (List String → Option ℤ) → (List String → String) → (List String → Slice) → Object

  pub data Slice : Type 0 where
    absent : Slice
    nil : Slice
    cons : Object → Slice → Slice

abbrev pub items : Slice → List Object
items absent = []
items nil = []
items (cons x xs) = x ∷ items xs

abbrev pub found : Slice → Option (List Object)
found absent = none
found s = some (items s)

abbrev pub slice : List Object → Slice
slice [] = nil
slice (x ∷ xs) = cons x (slice xs)

found-slice : (xs : List Object) → found (slice xs) ≡ some xs
found-slice [] = refl
found-slice (x ∷ xs) = ap (λ (l : List Object). some (x ∷ l)) (items-slice xs)
  where
    items-slice : (ys : List Object) → items (slice ys) ≡ ys
    items-slice [] = refl
    items-slice (y ∷ ys) = ap (◌∷◌ y) (items-slice ys)

abbrev pub object_is_map : Object → Bool
object_is_map (object m ints texts slices) = m

abbrev pub object_int : Object → List String → Option ℤ
object_int (object m ints texts slices) = ints

abbrev pub object_text : Object → List String → String
object_text (object m ints texts slices) = texts

abbrev pub object_slice : Object → List String → Slice
object_slice (object m ints texts slices) = slices

abbrev pub with_int : Object → ℤ → List String → Object
with_int (object m ints texts slices) n p =
    object m (λ q. if path_eq q p then some n else ints q) texts slices

abbrev pub with_slice : Object → List Object → List String → Object
with_slice (object m ints texts slices) xs p =
    object m ints texts (λ q. if path_eq q p then slice xs else slices q)

instance abbrev pub objects : Unstructured Object
objects = record {
  is_map = object_is_map;
  nested_slice = λ v p. inr (found (object_slice v p));
  nested_string = object_text;
  set_nested_int = λ v n p. inr (with_int v n p);
  set_nested_slice = λ v xs p. inr (with_slice v xs p);
}

int-set_int : (v : Object) (n : ℤ) (p : List String) → object_int (with_int v n p) p ≡ some n
int-set_int (object m ints texts slices) n p = rw (path_eq_refl p)

slice-set_slice :
    (v : Object) (xs : List Object) (p : List String)
    → found (object_slice (with_slice v xs p) p) ≡ some xs
slice-set_slice (object m ints texts slices) xs p = rw (path_eq_refl p) (found-slice xs)

is_map-set_int :
    (v : Object) (n : ℤ) (p : List String) → object_is_map (with_int v n p) ≡ object_is_map v
is_map-set_int (object m ints texts slices) n p = refl

text-set_int :
    (v : Object) (n : ℤ) (p q : List String) → object_text (with_int v n p) q ≡ object_text v q
text-set_int (object m ints texts slices) n p q = refl

object_eq : (v w : Object) → ◌≡◌ {A = Error ⊎ Object} (inr v) (inr w) → v ≡ w
object_eq v w e = cc

-- The assumptions on the package `unstructured` can be met.
pub objects-IsUnstructured : IsUnstructured objects
objects-IsUnstructured = record {
  nested_int = object_int;
  int-set_int =
      λ v n p v' e. subst (λ w. object_int w p ≡ some n) (object_eq _ _ e) (int-set_int v n p);
  is_map-set_int = λ v n p v' e.
      subst (λ w. object_is_map w ≡ object_is_map v) (object_eq _ _ e) (is_map-set_int v n p);
  string-set_int = λ v n a b p q v' d e.
      subst (λ w. object_text w (b ∷ q) ≡ object_text v (b ∷ q)) (object_eq _ _ e)
        (text-set_int v n (a ∷ p) (b ∷ q));
  slice-set_slice = λ v xs p v' e.
      subst
        (λ w.
          ◌≡◌ {A = Error ⊎ Option (List Object)} (inr (found (object_slice w p))) (inr (some xs)))
        (object_eq _ _ e) (ap inr (slice-set_slice v xs p));
}
