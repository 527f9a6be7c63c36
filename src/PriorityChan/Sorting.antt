-- ===== src/PriorityChan/Sorting.antt =====
-- priotity_async_mpsc_chan.rs: the stable order of the items by their priorities.
use Prim.Native.Nat.{Ordering}
use pa_queue_and_chan.Prelude.{
  ◌≡◌, ◌≢◌, refl, sym, ap, subst, ◌∙◌, ◌⊎◌, inl, inr, List, [], ◌∷◌, length, suc, ◌+◌, arith, ◌++◌,
  append-nil, append_assoc,
}
use pa_queue_and_chan.External.PrioritySetting.{PrioritySetting}
use pa_queue_and_chan.PriorityChan.Items.{Ordering-cases, insert_item}

module _ (S : PrioritySetting) where
  open S use {I, P, order as O}

  -- No item is more urgent than the first; and none than those before it.
  abbrev pub NoneBefore : P → List (P × I) → Type 0
  NoneBefore p [] = Unit
  NoneBefore p ((j, x) ∷ xs) = (O.cmp p j ≢ Ordering.gt) × NoneBefore p xs

  abbrev pub IsSorted : List (P × I) → Type 0
  IsSorted [] = Unit
  IsSorted ((j, x) ∷ xs) = NoneBefore j xs × IsSorted xs

  -- The items of one priority.
  unfoldable pub of_priority : P → List (P × I) → List (P × I)
  of_priority p [] = []
  of_priority p ((j, x) ∷ xs) = elim (O.cmp p j) [
    | Ordering.eq ↦ (j, x) ∷ of_priority p xs
    | Ordering.lt ↦ of_priority p xs
    | Ordering.gt ↦ of_priority p xs
  ]

  lt_trans :
      (p j k : P) → O.cmp p j ≡ Ordering.lt → O.cmp j k ≢ Ordering.gt → O.cmp p k ≡ Ordering.lt
  lt_trans p j k e n = elim (Ordering-cases (O.cmp j k)) [
    | inl f ↦ O.cmp_trans p j k e f
    | inr (inl f) ↦ subst (λ x. O.cmp p x ≡ Ordering.lt) (O.eq_of_cmp j k f) e
    | inr (inr f) ↦ absurd (n f)
  ]

  NoneBefore-lt :
      (p j : P) (xs : List (P × I)) → O.cmp p j ≡ Ordering.lt → NoneBefore j xs → NoneBefore p xs
  NoneBefore-lt p j [] e n = tt
  NoneBefore-lt p j ((k, x) ∷ xs) e n =
      ((λ g. cc (lt_trans p j k e n.0)), NoneBefore-lt p j xs e n.1)

  not_before_self : (a : P) → O.cmp a a ≢ Ordering.gt
  not_before_self a g = let e : O.cmp a a ≡ Ordering.eq = O.cmp_self a in cc

  not_before :
      (p j : P) → (O.cmp p j ≡ Ordering.eq) ⊎ (O.cmp p j ≡ Ordering.gt) → O.cmp j p ≢ Ordering.gt
  not_before p j (inl e) g =
      subst (λ x. O.cmp x p ≢ Ordering.gt) (O.eq_of_cmp p j e) (not_before_self p) g
  not_before p j (inr e) g = cc (O.cmp_gt_lt p j e)

  NoneBefore-insert :
      (q p : P) (i : I) (xs : List (P × I))
      → O.cmp q p ≢ Ordering.gt
      → NoneBefore q xs
      → NoneBefore q (insert_item S (p, i) xs)
  unfolding insert_item
  NoneBefore-insert q p i [] n h = (n, tt)
  NoneBefore-insert q p i ((j, x) ∷ xs) n h = elim (Ordering-cases (O.cmp p j)) [
    | inl e ↦ rw (e, insert_item) (n, h)
    | inr (inl e) ↦ rw (e, insert_item) (h.0, NoneBefore-insert q p i xs n h.1)
    | inr (inr e) ↦ rw (e, insert_item) (h.0, NoneBefore-insert q p i xs n h.1)
  ]

  insert-IsSorted :
      (p : P) (i : I) (xs : List (P × I)) → IsSorted xs → IsSorted (insert_item S (p, i) xs)
  unfolding insert_item
  insert-IsSorted p i [] s = (tt, tt)
  insert-IsSorted p i ((j, x) ∷ xs) (n, s) = elim (Ordering-cases (O.cmp p j)) [
    | inl e ↦ rw (e, insert_item) (((λ g. cc), NoneBefore-lt p j xs e n), (n, s))
    | inr (inl e) ↦
        rw (e, insert_item)
          (NoneBefore-insert j p i xs (not_before p j (inl e)) n, insert-IsSorted p i xs s)
    | inr (inr e) ↦
        rw (e, insert_item)
          (NoneBefore-insert j p i xs (not_before p j (inr e)) n, insert-IsSorted p i xs s)
  ]

  of_priority-none :
      (p j : P) (xs : List (P × I))
      → O.cmp p j ≡ Ordering.lt
      → NoneBefore j xs
      → of_priority p xs ≡ []
  unfolding of_priority
  of_priority-none p j [] e n = refl
  of_priority-none p j ((k, x) ∷ xs) e n =
      rw (lt_trans p j k e n.0, of_priority) (of_priority-none p j xs e n.1)

  of_priority-append :
      (p : P) (xs ys : List (P × I))
      → of_priority p (xs ++ ys) ≡ of_priority p xs ++ of_priority p ys
  unfolding of_priority
  of_priority-append p [] ys = refl
  of_priority-append p ((j, x) ∷ xs) ys = elim (Ordering-cases (O.cmp p j)) [
    | inl e ↦ rw (e, of_priority) (of_priority-append p xs ys)
    | inr (inl e) ↦ rw (e, of_priority) (ap (◌∷◌ (j, x)) (of_priority-append p xs ys))
    | inr (inr e) ↦ rw (e, of_priority) (of_priority-append p xs ys)
  ]

  of_priority-tail :
      (p : P) (z : P × I) (xs ys : List (P × I))
      → of_priority p xs ≡ of_priority p ys
      → of_priority p (z ∷ xs) ≡ of_priority p (z ∷ ys)
  of_priority-tail p z xs ys e =
      of_priority-append p (z ∷ []) xs
      ∙ ap (◌++◌ (of_priority p (z ∷ []))) e
      ∙ sym (of_priority-append p (z ∷ []) ys)

  of_priority-front :
      (q p : P) (i : I) (xs : List (P × I))
      → (O.cmp q p ≡ Ordering.eq → of_priority q xs ≡ [])
      → of_priority q ((p, i) ∷ xs) ≡ of_priority q (xs ++ (p, i) ∷ [])
  unfolding of_priority
  of_priority-front q p i xs h = elim (Ordering-cases (O.cmp q p)) [
    | inl e ↦
        rw (of_priority-append q xs ((p, i) ∷ []), e, of_priority)
          (sym (append-nil (of_priority q xs)))
    | inr (inl e) ↦ rw (of_priority-append q xs ((p, i) ∷ []), h e, e, of_priority, h e)
    | inr (inr e) ↦
        rw (of_priority-append q xs ((p, i) ∷ []), e, of_priority)
          (sym (append-nil (of_priority q xs)))
  ]

  of_priority-insert :
      (q p : P) (i : I) (xs : List (P × I))
      → IsSorted xs
      → of_priority q (insert_item S (p, i) xs) ≡ of_priority q (xs ++ (p, i) ∷ [])
  unfolding insert_item
  of_priority-insert q p i [] s = refl
  of_priority-insert q p i ((j, x) ∷ xs) (n, s) = elim (Ordering-cases (O.cmp p j)) [
    | inl e ↦
        rw (e, insert_item)
          (of_priority-front q p i ((j, x) ∷ xs) (λ f.
            of_priority-none q j ((j, x) ∷ xs)
              (subst (λ a. O.cmp a j ≡ Ordering.lt) (sym (O.eq_of_cmp q p f)) e)
              (not_before_self j, n)))
    | inr (inl e) ↦
        rw (e, insert_item)
          (of_priority-tail q (j, x) (insert_item S (p, i) xs) (xs ++ (p, i) ∷ [])
            (of_priority-insert q p i xs s))
    | inr (inr e) ↦
        rw (e, insert_item)
          (of_priority-tail q (j, x) (insert_item S (p, i) xs) (xs ++ (p, i) ∷ [])
            (of_priority-insert q p i xs s))
  ]

  -- A list, item for item, into a sorted one.
  unfoldable pub sort_into : List (P × I) → List (P × I) → List (P × I)
  sort_into [] ys = ys
  sort_into (x ∷ xs) ys = sort_into xs (insert_item S x ys)

  pub sort_into-IsSorted : (xs ys : List (P × I)) → IsSorted ys → IsSorted (sort_into xs ys)
  unfolding sort_into
  sort_into-IsSorted [] ys s = s
  sort_into-IsSorted ((p, i) ∷ xs) ys s =
      sort_into-IsSorted xs (insert_item S (p, i) ys) (insert-IsSorted p i ys s)

  pub of_priority-sort_into :
      (q : P) (xs ys : List (P × I))
      → IsSorted ys
      → of_priority q (sort_into xs ys) ≡ of_priority q (ys ++ xs)
  unfolding sort_into
  of_priority-sort_into q [] ys s = ap (of_priority q) (sym (append-nil ys))
  of_priority-sort_into q ((p, i) ∷ xs) ys s = rw (
    of_priority-sort_into q xs (insert_item S (p, i) ys) (insert-IsSorted p i ys s),
    of_priority-append q (insert_item S (p, i) ys) xs,
    of_priority-insert q p i ys s,
    sym (of_priority-append q (ys ++ (p, i) ∷ []) xs),
    append_assoc,
  )

  length-insert_item :
      (p : P) (i : I) (xs : List (P × I)) → length (insert_item S (p, i) xs) ≡ suc (length xs)
  unfolding insert_item
  length-insert_item p i [] = refl
  length-insert_item p i ((j, x) ∷ xs) = elim (Ordering-cases (O.cmp p j)) [
    | inl e ↦ rw (e, insert_item)
    | inr (inl e) ↦ rw (e, insert_item) (ap suc (length-insert_item p i xs))
    | inr (inr e) ↦ rw (e, insert_item) (ap suc (length-insert_item p i xs))
  ]

  pub length-sort_into : (xs ys : List (P × I)) → length (sort_into xs ys) ≡ length xs + length ys
  unfolding sort_into
  length-sort_into [] ys = omega arith
  length-sort_into ((p, i) ∷ xs) ys =
      length-sort_into xs (insert_item S (p, i) ys)
      ∙ ap (◌+◌ (length xs)) (length-insert_item p i ys)
      ∙ omega arith
