-- ===== src/PriorityChan/Ordered.antt =====
-- priotity_async_mpsc_chan.rs: the order of the map under `push` and `pop`.
use Prim.Native.Nat.{Ordering}
use pa_queue_and_chan.Prelude.{
  ◌≡◌, refl, sym, subst, ◌⊎◌, inl, inr, Option, none, some, [], ◌∷◌, Bool-cases,
}
use pa_queue_and_chan.External.PrioritySetting.{PrioritySetting}
use pa_queue_and_chan.PriorityChan.Queue.{
  Queues, insert, push_to, contains_key, push_read, push_write, push, pop,
}
use pa_queue_and_chan.PriorityChan.Items.{
  Ordering-cases, AllAbove, AllAbove-trans, IsOrdered, items,
}

module _ (S : PrioritySetting) where
  open S use {I, P, order as O, queues as Q}

  AllAbove-push_to :
      (i : I) (j p : P) (m : Queues S) → AllAbove S j m → AllAbove S j (push_to S i p m)
  unfolding push_to
  AllAbove-push_to i j p [] a = tt
  AllAbove-push_to i j p ((k, q) ∷ m) a = elim (Ordering-cases (O.cmp p k)) [
    | inl e ↦ rw (e, push_to) a
    | inr (inl e) ↦ rw (e, push_to) a
    | inr (inr e) ↦ rw (e, push_to) (a.0, AllAbove-push_to i j p m a.1)
  ]

  AllAbove-insert :
      (j p : P) (r : Q.SegQueue I) (m : Queues S)
      → O.cmp j p ≡ Ordering.lt
      → AllAbove S j m
      → AllAbove S j (insert S p r m)
  unfolding insert
  AllAbove-insert j p r [] h a = (h, tt)
  AllAbove-insert j p r ((k, q) ∷ m) h a = elim (Ordering-cases (O.cmp p k)) [
    | inl e ↦ rw (e, insert) (h, a)
    | inr (inl e) ↦ rw (e, insert) (h, a.1)
    | inr (inr e) ↦ rw (e, insert) (a.0, AllAbove-insert j p r m h a.1)
  ]

  push_to-IsOrdered : (i : I) (p : P) (m : Queues S) → IsOrdered S m → IsOrdered S (push_to S i p m)
  unfolding push_to
  push_to-IsOrdered i p [] o = tt
  push_to-IsOrdered i p ((k, q) ∷ m) o = elim (Ordering-cases (O.cmp p k)) [
    | inl e ↦ rw (e, push_to) o
    | inr (inl e) ↦ rw (e, push_to) o
    | inr (inr e) ↦ rw (e, push_to) (AllAbove-push_to i k p m o.0, push_to-IsOrdered i p m o.1)
  ]

  insert-IsOrdered :
      (p : P) (r : Q.SegQueue I) (m : Queues S) → IsOrdered S m → IsOrdered S (insert S p r m)
  unfolding insert
  insert-IsOrdered p r [] o = (tt, tt)
  insert-IsOrdered p r ((k, q) ∷ m) o = elim (Ordering-cases (O.cmp p k)) [
    | inl e ↦ rw (e, insert) ((e, AllAbove-trans S p k m e o.0), o)
    | inr (inl e) ↦ rw (e, insert) (subst (λ x. AllAbove S x m) (sym (O.eq_of_cmp p k e)) o.0, o.1)
    | inr (inr e) ↦
        rw (e, insert) (AllAbove-insert k p r m (O.cmp_gt_lt p k e) o.0, insert-IsOrdered p r m o.1)
  ]

  -- A push keeps the order of the priorities.
  pub push-IsOrdered : (i : I) (p : P) (m : Queues S) → IsOrdered S m → IsOrdered S (push S i p m)
  unfolding push push_read push_write
  push-IsOrdered i p m o = elim (Bool-cases (contains_key S p m)) [
    | inl e ↦ rw (e, push, push_read) (push_to-IsOrdered i p m o)
    | inr e ↦ rw (e, push, push_read) (push_to-IsOrdered i p _ (insert-IsOrdered p Q.new m o))
  ]

  abbrev pub PopsItem : Queues S → Option (I × Queues S) → Type 0
  PopsItem m r =
      ((items S m ≡ []) × (r ≡ none))
      ⊎ ((p : P) × (i : I) × (m' : Queues S) × (items S m ≡ (p, i) ∷ items S m')
          × (r ≡ some (i, m')))

  -- `pop` takes the first item, that is the oldest of the most urgent ones, and leaves the others;
  -- it yields nothing only if there is no item.
  pub pop_takes_first : (m : Queues S) → PopsItem m (pop S m)
  unfolding pop
  pop_takes_first [] = inl (refl, refl)
  pop_takes_first ((j, q) ∷ m) = elim (Q.pop-Pops q) [
    | inr (i, q', e, pe) ↦ inr (j, i, (j, q') ∷ m, rw e refl, rw (pe, pop))
    | inl (e, pe) ↦ elim (pop_takes_first m) [
      | inl (e', pe') ↦ inl (rw (e, e'), rw (pe, pop) (rw (pe', pop)))
      | inr (p, i, m', e', pe') ↦ inr (p, i, (j, q) ∷ m', rw (e, e'), rw (pe, pop) (rw (pe', pop)))
    ]
  ]
