-- ===== src/Prelude/Lists.antt =====
-- Lists measured by native numbers, and the entries of a list that have a given key.
use Prim.Native.Nat.{ℕ, suc, ◌+◌}
use mathlib.Core.Path.{◌≡◌, refl}
use mathlib.Core.Logic.{ite, ◌≢◌}
use mathlib.Core.List.{List, [], ◌∷◌, ◌++◌}
use mathlib.Core.Option.{Option, none, some}
use mathlib.Core.Bool.{Bool, true, false}
use native.Mathlib.Omega.{arith}
use native.Mathlib.Decide.{ℕ_discrete}

module _ {ℓ} {A : Type ℓ} where
  abbrev pub length : List A → ℕ
  length [] = 0
  length (x ∷ xs) = suc (length xs)

  pub length-append : (xs ys : List A) → length (xs ++ ys) ≡ length xs + length ys
  length-append [] ys = omega arith
  length-append (x ∷ xs) ys = omega (arith, length-append xs ys)

  abbrev pub is_empty : List A → Bool
  is_empty [] = true
  is_empty (x ∷ xs) = false

  pub nil_of_empty : (xs : List A) → is_empty xs ≡ true → xs ≡ []
  nil_of_empty [] h = refl
  nil_of_empty (x ∷ xs) h = cc

  -- The list of an option.
  abbrev pub to_list : Option A → List A
  to_list none = []
  to_list (some a) = a ∷ []

  abbrev pub is_some : Option A → Bool
  is_some none = false
  is_some (some a) = true

-- A set of numbers, as the list of its members.
unfoldable pub contains : ℕ → List ℕ → Bool
contains i [] = false
contains i (j ∷ js) = ite (ℕ_discrete j i) true (contains i js)

unfoldable pub without : ℕ → List ℕ → List ℕ
without i [] = []
without i (j ∷ js) = ite (ℕ_discrete j i) (without i js) (j ∷ without i js)

module _ {ℓ} {K : Type ℓ} (key_eq : Discrete K) where
  unfoldable pub count : K → List K → ℕ
  count k [] = 0
  count k (j ∷ js) = ite (key_eq j k) 1 0 + count k js

  pub count-append : (k : K) (xs ys : List K) → count k (xs ++ ys) ≡ count k xs + count k ys
  unfolding count
  count-append k [] ys = omega arith
  count-append k (x ∷ xs) ys = omega (arith, count-append k xs ys)

  module _ {κ} {V : Type κ} where
    -- The pairs with key `k`, in their order.
    unfoldable pub of_key : K → List (K × V) → List (K × V)
    of_key k [] = []
    of_key k ((j, v) ∷ xs) = ite (key_eq j k) ((j, v) ∷ of_key k xs) (of_key k xs)

    pub of_key-append :
        (k : K) (xs ys : List (K × V)) → of_key k (xs ++ ys) ≡ of_key k xs ++ of_key k ys
    unfolding of_key
    of_key-append k [] ys = refl
    of_key-append k ((j, v) ∷ xs) ys = ground (arith, of_key-append k xs ys)

    -- Every pair has key `k`.
    abbrev pub AllKey : K → List (K × V) → Type ℓ
    AllKey k [] = Unit
    AllKey k ((j, v) ∷ xs) = (j ≡ k) × AllKey k xs

    pub AllKey-snoc :
        (k : K) (v : V) (xs : List (K × V)) → AllKey k xs → AllKey k (xs ++ (k, v) ∷ [])
    AllKey-snoc k v [] h = (refl, tt)
    AllKey-snoc k v ((j, w) ∷ xs) h = (h.0, AllKey-snoc k v xs h.1)

    pub of_key-AllKey : (k : K) (xs : List (K × V)) → AllKey k xs → of_key k xs ≡ xs
    unfolding of_key
    of_key-AllKey k [] h = refl
    of_key-AllKey k ((j, v) ∷ xs) h = ground (arith, of_key-AllKey k xs h.1)

    pub of_key-AllKey_ne : (k i : K) (xs : List (K × V)) → AllKey i xs → i ≢ k → of_key k xs ≡ []
    unfolding of_key
    of_key-AllKey_ne k i [] h n = refl
    of_key-AllKey_ne k i ((j, v) ∷ xs) h n = ground (arith, of_key-AllKey_ne k i xs h.1 n)
