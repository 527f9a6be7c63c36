-- ===== src/PriorityChan/Items.antt =====
-- priotity_async_mpsc_chan.rs: the queue as one list of items, most urgent first.
use Prim.Native.Nat.{Ordering}
use pa_queue_and_chan.Prelude.{
  ◌≡◌, refl, sym, ap, ◌⊎◌, inl, inr, true, false, Option, none, some, List, [], ◌∷◌, ◌++◌,
  Bool-cases, subst, is_some, append_assoc,
}
use pa_queue_and_chan.External.PrioritySetting.{PrioritySetting}
use pa_queue_and_chan.PriorityChan.Queue.{
  Queues, find, insert, push_to, contains_key, push_read, push_write, push,
}

pub Ordering-cases : (o : Ordering) → (o ≡ Ordering.lt) ⊎ (o ≡ Ordering.eq) ⊎ (o ≡ Ordering.gt)
Ordering-cases Ordering.lt = inl refl
Ordering-cases Ordering.eq = inr (inl refl)
Ordering-cases Ordering.gt = inr (inr refl)

none_of_not_some : {A : Type 0} (o : Option A) → is_some o ≡ false → o ≡ none
none_of_not_some none h = refl
none_of_not_some (some a) h = cc

module _ (S : PrioritySetting) where
  open S use {I, P, order as O, queues as Q}

  -- Every key of the map lies above `p`.
  abbrev pub AllAbove : P → Queues S → Type 0
  AllAbove p [] = Unit
  AllAbove p ((j, q) ∷ m) = (O.cmp p j ≡ Ordering.lt) × AllAbove p m

  abbrev pub IsOrdered : Queues S → Type 0
  IsOrdered [] = Unit
  IsOrdered ((j, q) ∷ m) = AllAbove j m × IsOrdered m

  abbrev pub tagged : P → List I → List (P × I)
  tagged p [] = []
  tagged p (i ∷ is) = (p, i) ∷ tagged p is

  -- The items with their priorities, in the order of the map, oldest first in each queue.
  abbrev pub items : Queues S → List (P × I)
  items [] = []
  items ((j, q) ∷ m) = tagged j (Q.entries q) ++ items m

  -- The specification: a new item stands behind all that are as urgent or more.
  unfoldable pub insert_item : P × I → List (P × I) → List (P × I)
  insert_item (p, i) [] = (p, i) ∷ []
  insert_item (p, i) ((j, x) ∷ xs) = elim (O.cmp p j) [
    | Ordering.lt ↦ (p, i) ∷ (j, x) ∷ xs
    | Ordering.eq ↦ (j, x) ∷ insert_item (p, i) xs
    | Ordering.gt ↦ (j, x) ∷ insert_item (p, i) xs
  ]

  tagged-append : (p : P) (xs ys : List I) → tagged p (xs ++ ys) ≡ tagged p xs ++ tagged p ys
  tagged-append p [] ys = refl
  tagged-append p (x ∷ xs) ys = ap (◌∷◌ (p, x)) (tagged-append p xs ys)

  pub AllAbove-trans :
      (p j : P) (m : Queues S) → O.cmp p j ≡ Ordering.lt → AllAbove j m → AllAbove p m
  AllAbove-trans p j [] h a = tt
  AllAbove-trans p j ((i, q) ∷ m) h a = (O.cmp_trans p j i h a.0, AllAbove-trans p j m h a.1)

  insert_item-tagged_lt :
      (p j : P) (i : I) (es : List I) (xs : List (P × I))
      → O.cmp p j ≡ Ordering.lt
      → insert_item (p, i) xs ≡ (p, i) ∷ xs
      → insert_item (p, i) (tagged j es ++ xs) ≡ (p, i) ∷ (tagged j es ++ xs)
  unfolding insert_item
  insert_item-tagged_lt p j i [] xs h e = e
  insert_item-tagged_lt p j i (x ∷ es) xs h e = rw (h, insert_item)

  -- What is more urgent than all items goes to the front.
  insert_item-AllAbove :
      (p : P) (i : I) (m : Queues S)
      → AllAbove p m
      → insert_item (p, i) (items m) ≡ (p, i) ∷ items m
  unfolding insert_item
  insert_item-AllAbove p i [] a = refl
  insert_item-AllAbove p i ((j, q) ∷ m) a =
      insert_item-tagged_lt p j i (Q.entries q) (items m) a.0 (insert_item-AllAbove p i m a.1)

  insert_item-tagged_ge :
      (p j : P) (i : I) (es : List I) (xs : List (P × I))
      → (O.cmp p j ≡ Ordering.eq) ⊎ (O.cmp p j ≡ Ordering.gt)
      → insert_item (p, i) (tagged j es ++ xs) ≡ tagged j es ++ insert_item (p, i) xs
  unfolding insert_item
  insert_item-tagged_ge p j i [] xs h = refl
  insert_item-tagged_ge p j i (x ∷ es) xs (inl h) =
      rw (h, insert_item) (ap (◌∷◌ (j, x)) (insert_item-tagged_ge p j i es xs (inl h)))
  insert_item-tagged_ge p j i (x ∷ es) xs (inr h) =
      rw (h, insert_item) (ap (◌∷◌ (j, x)) (insert_item-tagged_ge p j i es xs (inr h)))

  -- A push to a queue of the same priority.
  items-push_same :
      (p : P) (i : I) (q : Q.SegQueue I) (m : Queues S)
      → AllAbove p m
      → tagged p (Q.entries (Q.push i q)) ++ items m
        ≡ insert_item (p, i) (tagged p (Q.entries q) ++ items m)
  items-push_same p i q m a = rw (
    Q.entries-push i q,
    tagged-append p (Q.entries q) (i ∷ []),
    insert_item-tagged_ge p p i (Q.entries q) (items m) (inl (O.cmp_self p)),
    insert_item-AllAbove p i m a,
    append_assoc,
  )

  pub push_to_self :
      (i : I) (p : P) (q : Q.SegQueue I) (m : Queues S)
      → push_to S i p ((p, q) ∷ m) ≡ (p, Q.push i q) ∷ m
  unfolding push_to
  push_to_self i p q m = rw (O.cmp_self p, push_to)

  items-push_to :
      (i : I) (p : P) (m : Queues S)
      → IsOrdered m
      → is_some (find S p m) ≡ true
      → items (push_to S i p m) ≡ insert_item (p, i) (items m)
  unfolding push_to find
  items-push_to i p [] o h = cc
  items-push_to i p ((j, q) ∷ m) o h = elim (Ordering-cases (O.cmp p j)) [
    | inl e ↦ absurd (cc (rw (e, find) at h))
    | inr (inl e) ↦
        rw (e, push_to)
          (subst
            (λ x.
              tagged j (Q.entries (Q.push i q)) ++ items m
              ≡ insert_item (x, i) (tagged j (Q.entries q) ++ items m))
            (sym (O.eq_of_cmp p j e)) (items-push_same j i q m o.0))
    | inr (inr e) ↦
        rw (e, push_to, insert_item-tagged_ge p j i (Q.entries q) (items m) (inr e))
          (ap (◌++◌ (tagged j (Q.entries q))) (items-push_to i p m o.1 (rw (e, find) at h)))
  ]

  -- A new queue in front of what lies above it.
  items-push_new :
      (i : I) (p : P) (m : Queues S)
      → AllAbove p m
      → items (push_to S i p ((p, Q.new) ∷ m)) ≡ insert_item (p, i) (items m)
  items-push_new i p m a =
      rw (push_to_self i p Q.new m) (rw (Q.entries-new {A = I}) at (items-push_same p i Q.new m a))

  pub items-push_write :
      (i : I) (p : P) (m : Queues S)
      → IsOrdered m
      → find S p m ≡ none
      → items (push_write S i p m) ≡ insert_item (p, i) (items m)
  unfolding push_write find
  items-push_write i p [] o h = items-push_new i p [] tt
  items-push_write i p ((j, q) ∷ m) o h = elim (Ordering-cases (O.cmp p j)) [
    | inl e ↦ rw (e, insert) (items-push_new i p ((j, q) ∷ m) (e, AllAbove-trans p j m e o.0))
    | inr (inl e) ↦ absurd (cc (rw (e, find) at h))
    | inr (inr e) ↦
        rw (e, insert)
          (rw (e, push_to, insert_item-tagged_ge p j i (Q.entries q) (items m) (inr e))
            (ap (◌++◌ (tagged j (Q.entries q))) (items-push_write i p m o.1 (rw (e, find) at h))))
  ]

  -- A push without interference, on a map whose priorities are in order, puts the item behind all
  -- items that are as urgent or more, and before all that are less urgent.
  pub push_inserts :
      (i : I) (p : P) (m : Queues S)
      → IsOrdered m
      → items (push S i p m) ≡ insert_item (p, i) (items m)
  unfolding push push_read contains_key
  push_inserts i p m o = elim (Bool-cases (contains_key S p m)) [
    | inl e ↦ rw (e, push, push_read) (items-push_to i p m o e)
    | inr e ↦ rw (e, push, push_read) (items-push_write i p m o (none_of_not_some (find S p m) e))
  ]
