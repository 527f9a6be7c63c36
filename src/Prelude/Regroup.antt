-- ===== src/Prelude/Regroup.antt =====
-- Lists of pairs that agree on the pairs of each key.
use Prim.Native.Nat.{◌+◌, ◌≤◌}
use mathlib.Core.Path.{◌≡◌, refl, sym, ap, subst, ◌∙◌}
use mathlib.Core.Logic.{if_pos, if_neg}
use mathlib.Core.List.{List, [], ◌∷◌, ◌++◌, Perm, perm_middle, append-nil}
use mathlib.Core.List.Perm
use native.Mathlib.Omega.{arith}
use pa_queue_and_chan.Prelude.Lists.{of_key, of_key-append, length, length-append}

nil_of_length : {A : Type 0} (zs : List A) → length zs ≡ 0 → zs ≡ []
nil_of_length [] h = refl
nil_of_length (z ∷ zs) h = absurd (omega (arith, h))

module _ {K V : Type 0} (key_eq : Discrete K) where
  first_of_key :
      (k : K) (v : V) (ys l : List (K × V))
      → of_key key_eq k ys ≡ (k, v) ∷ l
      → (us : List (K × V)) × (ws : List (K × V)) × (ys ≡ us ++ (k, v) ∷ ws)
        × (of_key key_eq k us ≡ [])
  unfolding of_key
  first_of_key k v [] l h = absurd (cc)
  first_of_key k v ((j, w) ∷ ys) l h = elim (key_eq j k) [
    | yes p ↦
        let e : ◌≡◌ {A = List (K × V)} ((j, w) ∷ of_key key_eq k ys) ((k, v) ∷ l) =
          sym (if_pos (key_eq j k) p _ _) ∙ h in
        ([], ys, ap (λ x. x ∷ ys) (cc (e)), refl)
    | no n ↦
        let (us, ws, e, f) = first_of_key k v ys l (sym (if_neg (key_eq j k) n _ _) ∙ h) in
        ((j, w) ∷ us, ws, ap (λ zs. (j, w) ∷ zs) e, if_neg (key_eq j k) n _ _ ∙ f)
  ]

  -- The pairs of each key, without one of them.
  without_first :
      (k : K) (v : V) (us ws xs : List (K × V)) (rest : K → List (K × V)) (j : K)
      → of_key key_eq k us ≡ []
      → of_key key_eq j (us ++ (k, v) ∷ ws) ≡ of_key key_eq j ((k, v) ∷ xs) ++ rest j
      → of_key key_eq j (us ++ ws) ≡ of_key key_eq j xs ++ rest j
  unfolding of_key
  without_first k v us ws xs rest j f h = elim (key_eq k j) [
    | yes p ↦
        let g : of_key key_eq j us ≡ [] = subst (λ i. of_key key_eq i us ≡ []) p f in
        let e : ◌≡◌ {A = List (K × V)} ((k, v) ∷ of_key key_eq j ws)
            ((k, v) ∷ (of_key key_eq j xs ++ rest j)) =
          ap (λ zs. zs ++ (k, v) ∷ of_key key_eq j ws) (sym g)
          ∙ ap (λ zs. of_key key_eq j us ++ zs) (sym (if_pos (key_eq k j) p _ _))
          ∙ sym (of_key-append key_eq j us ((k, v) ∷ ws))
          ∙ h
          ∙ ap (λ zs. zs ++ rest j) (if_pos (key_eq k j) p _ _) in
        of_key-append key_eq j us ws ∙ ap (λ zs. zs ++ of_key key_eq j ws) g ∙ cc (e)
    | no n ↦
        of_key-append key_eq j us ws
        ∙ ap (λ zs. of_key key_eq j us ++ zs) (sym (if_neg (key_eq k j) n _ _))
        ∙ sym (of_key-append key_eq j us ((k, v) ∷ ws))
        ∙ h
        ∙ ap (λ zs. zs ++ rest j) (if_neg (key_eq k j) n _ _)
  ]

  -- If the pairs of each key in `xs` are the first ones in `ys`, then `ys` has those of `xs` and
  -- others.
  regroup :
      (xs ys : List (K × V)) (rest : K → List (K × V))
      → ((k : K) → of_key key_eq k ys ≡ of_key key_eq k xs ++ rest k)
      → (zs : List (K × V)) × Perm ys (xs ++ zs) × (length ys ≡ length xs + length zs)
  unfolding of_key
  regroup [] ys rest h = (ys, Perm.refl ys, omega arith)
  regroup ((k, v) ∷ xs) ys rest h =
      let (us, ws, e, f) =
        first_of_key k v ys (of_key key_eq k xs ++ rest k)
          (h k ∙ ap (λ zs. zs ++ rest k) (if_pos (key_eq k k) refl _ _)) in
      let (zs, p, q) =
        regroup xs (us ++ ws) rest
          (λ j. without_first k v us ws xs rest j f (sym (ap (of_key key_eq j) e) ∙ h j)) in
      (
        zs,
        subst (λ l. Perm l ((k, v) ∷ xs ++ zs)) (sym e)
            (Perm.trans (perm_middle us ws) (Perm.cons (k, v) p)),
        omega (arith, q, ap length e, length-append us ((k, v) ∷ ws), length-append us ws),
      )

  -- If they agree on the pairs of each key, one is a permutation of the other.
  pub regroup-Perm :
      (xs ys : List (K × V))
      → ((k : K) → of_key key_eq k ys ≡ of_key key_eq k xs)
      → Perm ys xs × (length xs ≡ length ys)
  regroup-Perm xs ys h =
      let (zs, p, q) = regroup xs ys (λ k. []) (λ k. h k ∙ sym (append-nil _)) in
      let (_, _, q') = regroup ys xs (λ k. []) (λ k. sym (h k) ∙ sym (append-nil _)) in
      let none_left = nil_of_length zs (omega (arith, q, q')) in
      (subst (Perm ys) (ap (λ l. xs ++ l) none_left ∙ append-nil xs) p, omega (arith, q, q'))

  pub length-of_key_le :
      (xs ys : List (K × V)) (rest : K → List (K × V))
      → ((k : K) → of_key key_eq k ys ≡ of_key key_eq k xs ++ rest k)
      → length xs ≤ length ys
  length-of_key_le xs ys rest h = let (_, _, q) = regroup xs ys rest h in omega (arith, q)
