-- ===== src/VirtualService/Laws.antt =====
-- What the patch relies on of the package `unstructured`.
use statgate.Prelude.{ℤ, String, Option, some, List, ◌∷◌, ◌≡◌, inr, str_eq, false}
use statgate.VirtualService.{Unstructured}

-- Documented behaviour of the setters: what was set is read back, the receiver stays a map, and a path
-- that starts with another key reads as before. `nested_int` is `NestedInt64`, by which the written
-- weights are observed.
pub record IsUnstructured {V : Type 0} (u : Unstructured V) : Type 0 where
  pub nested_int : V → List String → Option ℤ
  pub int-set_int :
      (v : V) (n : ℤ) (p : List String) (v' : V)
      → u.set_nested_int v n p ≡ inr v'
      → nested_int v' p ≡ some n
  pub is_map-set_int :
      (v : V) (n : ℤ) (p : List String) (v' : V)
      → u.set_nested_int v n p ≡ inr v'
      → u.is_map v' ≡ u.is_map v
  pub string-set_int :
      (v : V) (n : ℤ) (a b : String) (p q : List String) (v' : V)
      → str_eq a b ≡ false
      → u.set_nested_int v n (a ∷ p) ≡ inr v'
      → u.nested_string v' (b ∷ q) ≡ u.nested_string v (b ∷ q)
  pub slice-set_slice :
      (v : V) (xs : List V) (p : List String) (v' : V)
      → u.set_nested_slice v xs p ≡ inr v'
      → u.nested_slice v' p ≡ inr (some xs)
