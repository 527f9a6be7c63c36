-- ===== src/NoOrderQueue/Threads.antt =====
-- mpsc_no_order_queue.rs: the values of each thread under `push` and `try_pop`.
use pa_queue_and_chan.Prelude.{
  ℕ, ◌≡◌, ◌≢◌, refl, sym, ◌∙◌, ◌⊎◌, inl, inr, arith, true, Option, none, some, List, [], ◌∷◌, ◌++◌,
  get, insert, is_some, get-insert, ℕ_discrete, ok, contains, Option-cases, ap,
}
use pa_queue_and_chan.External.SegQueue.{SegQueues}
use pa_queue_and_chan.NoOrderQueue.Defs.{MpscNoOrderQueue, join, push, pop_first, try_pop}

module _ (Q : SegQueues) (T : Type 0) where
  -- The values of an optional queue.
  abbrev pub values : Option (Q.SegQueue T) → List T
  values none = []
  values (some q) = Q.entries q

  -- The values that a thread has pushed and that are still there, oldest first.
  abbrev pub of_thread : ℕ → MpscNoOrderQueue Q T → List T
  of_thread i m = values (get ℕ_discrete i m.threads_queues)

  get-same :
      (i : ℕ) (q : Q.SegQueue T) (m : MpscNoOrderQueue Q T)
      → get ℕ_discrete i (insert ℕ_discrete i q m.threads_queues) ≡ some q
  get-same i q m = ground (arith, get-insert ℕ_discrete i i q m.threads_queues)

  get-other :
      (i j : ℕ) (q : Q.SegQueue T) (m : MpscNoOrderQueue Q T)
      → i ≢ j
      → get ℕ_discrete j (insert ℕ_discrete i q m.threads_queues)
        ≡ get ℕ_discrete j m.threads_queues
  get-other i j q m d = ground (arith, get-insert ℕ_discrete i j q m.threads_queues)

  join_lem :
      (i : ℕ) (m : MpscNoOrderQueue Q T)
      → ((q : Q.SegQueue T) × (get ℕ_discrete i (join Q T i m).threads_queues ≡ some q)
          × (Q.entries q ≡ of_thread i m))
        × ((j : ℕ) → i ≢ j → of_thread j (join Q T i m) ≡ of_thread j m)
  unfolding join
  join_lem i m = elim (Option-cases (get ℕ_discrete i m.threads_queues)) [
    | inr (q, e) ↦ rw (e, join) ((q, e, refl), (λ j d. refl))
    | inl e ↦
        rw (e, join)
          ((Q.new, get-same i Q.new m, Q.entries-new), (λ j d. ap values (get-other i j Q.new m d)))
  ]

  -- A push always succeeds: it puts the value behind those of its thread, and leaves the values of
  -- the other threads.
  pub push_keeps_threads :
      (i : ℕ) (t : T) (m : MpscNoOrderQueue Q T)
      → (m' : MpscNoOrderQueue Q T) × (push Q T i t m ≡ ok m')
        × (of_thread i m' ≡ of_thread i m ++ t ∷ [])
        × ((j : ℕ) → i ≢ j → of_thread j m' ≡ of_thread j m)
  unfolding push
  push_keeps_threads i t m =
      let ((q, e, v), others) = join_lem i m in
      (
        record { threads_queues = insert ℕ_discrete i (Q.push t q) (join Q T i m).threads_queues },
        rw (e) refl,
        ap values (get-same i (Q.push t q) (join Q T i m))
            ∙ Q.entries-push t q
            ∙ ap (λ xs. xs ++ t ∷ []) v,
        (λ j d. ap values (get-other i j (Q.push t q) (join Q T i m) d) ∙ others j d),
      )

  -- What a pop does that looks at the given threads.
  abbrev pub PopsOne : (List ℕ) → MpscNoOrderQueue Q T → Option (T × MpscNoOrderQueue Q T) → Type 0
  PopsOne is m r =
      ((r ≡ none) × ((i : ℕ) → contains i is ≡ true → of_thread i m ≡ []))
      ⊎ ((t : T) × (m' : MpscNoOrderQueue Q T) × (i : ℕ) × (r ≡ some (t, m'))
          × (of_thread i m ≡ t ∷ of_thread i m')
          × ((j : ℕ) → i ≢ j → of_thread j m' ≡ of_thread j m))

  pass :
      (i : ℕ) (is : List ℕ) (m : MpscNoOrderQueue Q T) (r : Option (T × MpscNoOrderQueue Q T))
      → of_thread i m ≡ []
      → PopsOne is m r
      → PopsOne (i ∷ is) m r
  unfolding contains
  pass i is m r e (inr h) = inr h
  pass i is m r e (inl (n, h)) =
      inl (n, (λ j c. elim (ℕ_discrete i j) [ yes p ↦ rw (p) at e | no d ↦ h j (ground arith) ]))

  pop_first-PopsOne : (is : List ℕ) (m : MpscNoOrderQueue Q T) → PopsOne is m (pop_first Q T is m)
  unfolding pop_first contains
  pop_first-PopsOne [] m = inl (refl, (λ i c. cc))
  pop_first-PopsOne (i ∷ is) m = elim (Option-cases (get ℕ_discrete i m.threads_queues)) [
    | inl e ↦ pass i is m _ (ap values e) (rw (e, pop_first) (pop_first-PopsOne is m))
    | inr (q, e) ↦ elim (Q.pop-Pops q) [
      | inl (v, p) ↦
          pass i is m _ (ap values e ∙ v)
            (rw (e, pop_first) (rw (p, pop_first) (pop_first-PopsOne is m)))
      | inr (t, q', v, p) ↦ inr (
        t,
        record { threads_queues = insert ℕ_discrete i q' m.threads_queues },
        i,
        rw (e, pop_first) (rw (p, pop_first) refl),
        ap values e ∙ v ∙ ap (λ xs. t ∷ xs) (sym (ap values (get-same i q' m))),
        (λ j d. ap values (get-other i j q' m d)),
      )
    ]
  ]

  -- If the iteration lists every thread that has a queue, then a pop yields nothing only if no thread
  -- has a value; else it yields the oldest value of some thread, and leaves the values behind it and
  -- those of the other threads.
  pub try_pop_takes_one :
      (threads : MpscNoOrderQueue Q T → List ℕ) (m : MpscNoOrderQueue Q T)
      → ((i : ℕ)
          → is_some (get ℕ_discrete i m.threads_queues) ≡ true
          → contains i (threads m) ≡ true)
      → ((try_pop Q T threads m ≡ none) × ((i : ℕ) → of_thread i m ≡ []))
        ⊎ ((t : T) × (m' : MpscNoOrderQueue Q T) × (i : ℕ) × (try_pop Q T threads m ≡ some (t, m'))
            × (of_thread i m ≡ t ∷ of_thread i m')
            × ((j : ℕ) → i ≢ j → of_thread j m' ≡ of_thread j m))
  unfolding try_pop
  try_pop_takes_one threads m all = elim (pop_first-PopsOne (threads m) m) [
    | inr h ↦ inr h
    | inl (n, h) ↦ inl (
      n,
      (λ i. elim (Option-cases (get ℕ_discrete i m.threads_queues)) [
        | inl e ↦ ap values e
        | inr (q, e) ↦ h i (all i (ap is_some e))
      ]),
    )
  ]
