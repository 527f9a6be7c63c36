-- ===== src/LockfreeQueue/Joined.antt =====
-- lockfree_link_queue.rs: the chain of the nodes of a queue while pushes are under way.
use pa_queue_and_chan.Prelude.{
  ℕ, ◌<◌, ◌≤◌, ◌≡◌, ◌⊎◌, inl, inr, refl, sym, ap, subst, ◌∙◌, arith, Option, none, some, List, [],
  ◌∷◌, ◌++◌,
}
use pa_queue_and_chan.LockfreeQueue.Memory.{Node, write}
use pa_queue_and_chan.LockfreeQueue.Shape.{Chain, write-same, write-other}
use pa_queue_and_chan.LockfreeQueue.Threads.{Pushing, exchanged, counted}

abbrev pub places : Pushing → ℕ × ℕ
places (exchanged a b) = (a, b)
places (counted a b) = (a, b)

places-same :
    (p q : Pushing) (c d a b : ℕ)
    → places p ≡ (c, d)
    → places q ≡ (a, b)
    → p ≡ q
    → (c ≡ a) × (d ≡ b)
places-same p q c d a b pp pe e =
    (ap (λ r. r.0) (sym pp ∙ ap places e ∙ pe), ap (λ r. r.1) (sym pp ∙ ap places e ∙ pe))

module _ {T : Type 0} where
  -- From the node at `a`, whose value is `t`, to the last at `l`: each node is linked to the next, or
  -- the first push of `ps` is about to do that.
  abbrev pub Joined : (ℕ → Option (Node T)) → ℕ → Option T → List T → ℕ → List Pushing → Type 0
  Joined h a t [] l ps = (h a ≡ some (record { t = t; next = none })) × (a ≡ l) × (ps ≡ [])
  Joined h a t (x ∷ xs) l ps =
      (b : ℕ) × (a < b)
      × (((h a ≡ some (record { t = t; next = some b })) × Joined h b (some x) xs l ps)
          ⊎ ((p : Pushing) × (qs : List Pushing) × (ps ≡ p ∷ qs)
              × (places p ≡ (a, b))
              × (h a ≡ some (record { t = t; next = none }))
              × Joined h b (some x) xs l qs))

  pub Joined-write :
      (a c l : ℕ) (t : Option T) (xs : List T) (ps : List Pushing) (h : ℕ → Option (Node T))
      (n : Option (Node T))
      → c < a
      → Joined h a t xs l ps
      → Joined (write c n h) a t xs l ps
  Joined-write a c l t [] ps h n lt (e, f, g) = (write-other c a n h (λ d. omega arith) ∙ e, f, g)
  Joined-write a c l t (x ∷ xs) ps h n lt (b, ab, inl (e, rest)) = (
    b,
    ab,
    inl (
      write-other c a n h (λ d. omega arith) ∙ e,
      Joined-write b c l (some x) xs ps h n (omega arith) rest,
    ),
  )
  Joined-write a c l t (x ∷ xs) ps h n lt (b, ab, inr (p, qs, eq, pe, e, rest)) = (
    b,
    ab,
    inr (
      p,
      qs,
      eq,
      pe,
      write-other c a n h (λ d. omega arith) ∙ e,
      Joined-write b c l (some x) xs qs h n (omega arith) rest,
    ),
  )

  pub Joined-Chain :
      (a l : ℕ) (t : Option T) (xs : List T) (h : ℕ → Option (Node T))
      → Joined h a t xs l []
      → Chain h a t xs l
  Joined-Chain a l t [] h (e, f, _) = (e, f)
  Joined-Chain a l t (x ∷ xs) h (b, ab, inl (e, rest)) =
      (b, e, ab, Joined-Chain b l (some x) xs h rest)
  Joined-Chain a l t (x ∷ xs) h (b, ab, inr (p, qs, eq, _, _, _)) = ground arith

  -- One more node, whose push has exchanged the tail.
  pub Joined-snoc :
      (a l n : ℕ) (t : Option T) (xs : List T) (x : T) (ps : List Pushing) (h : ℕ → Option (Node T))
      → l < n
      → Joined h a t xs l ps
      → (a ≤ l)
        × Joined
            (write n (some (record { t = some x; next = none })) h)
            a
            t
            (xs ++ x ∷ [])
            n
            (ps ++ exchanged l n ∷ [])
  Joined-snoc a l n t [] x ps h lt (e, f, g) = (
    omega arith,
    (
      n,
      omega arith,
      inr (
        exchanged l n,
        [],
        ap (λ qs. qs ++ exchanged l n ∷ []) g,
        ap (λ c. (c, n)) (sym f),
        write-other n a _ h (λ d. omega arith) ∙ e,
        (write-same n _ h, refl, refl),
      ),
    ),
  )
  Joined-snoc a l n t (y ∷ xs) x ps h lt (b, ab, inl (e, rest)) =
      let (bl, j) = Joined-snoc b l n (some y) xs x ps h lt rest in
      (omega arith, (b, omega arith, inl (write-other n a _ h (λ d. omega arith) ∙ e, j)))
  Joined-snoc a l n t (y ∷ xs) x ps h lt (b, ab, inr (p, qs, eq, pe, e, rest)) =
      let (bl, j) = Joined-snoc b l n (some y) xs x qs h lt rest in
      (
        omega arith,
        (
          b,
          ab,
          inr (
            p,
            qs ++ exchanged l n ∷ [],
            ap (λ rs. rs ++ exchanged l n ∷ []) eq,
            pe,
            write-other n a _ h (λ d. omega arith) ∙ e,
            j,
          ),
        ),
      )

  -- A push under way may be replaced by one that joins the same places.
  pub Joined-replace :
      (a l : ℕ) (t : Option T) (xs : List T) (ps : List Pushing) (p p' : Pushing)
      (us vs : List Pushing) (h : ℕ → Option (Node T))
      → places p ≡ places p'
      → ps ≡ us ++ p ∷ vs
      → Joined h a t xs l ps
      → Joined h a t xs l (us ++ p' ∷ vs)
  Joined-replace a l t [] ps p p' [] vs h pp eq (e, f, g) = ground arith
  Joined-replace a l t [] ps p p' (u ∷ us) vs h pp eq (e, f, g) = ground arith
  Joined-replace a l t (x ∷ xs) ps p p' us vs h pp eq (b, ab, inl (e, rest)) =
      (b, ab, inl (e, Joined-replace b l (some x) xs ps p p' us vs h pp eq rest))
  Joined-replace a l t (x ∷ xs) ps p p' [] vs h pp eq (b, ab, inr (q, qs, eq', pe, e, rest)) = (
    b,
    ab,
    inr (p', vs, refl, ground arith, e, subst (Joined h b (some x) xs l) (ground arith) rest),
  )
  Joined-replace a l t (x ∷ xs) ps p p' (u ∷ us) vs h pp eq (b, ab, inr (q, qs, eq', pe, e, rest)) =
      (
        b,
        ab,
        inr (
          u,
          us ++ p' ∷ vs,
          refl,
          ground arith,
          e,
          Joined-replace b l (some x) xs qs p p' us vs h pp (ground arith) rest,
        ),
      )

  -- A push under way finds the node before its own, and links it.
  pub Joined-link :
      (a l : ℕ) (t : Option T) (xs : List T) (ps : List Pushing) (p : Pushing) (c d : ℕ)
      (us vs : List Pushing) (h : ℕ → Option (Node T))
      → places p ≡ (c, d)
      → ps ≡ us ++ p ∷ vs
      → Joined h a t xs l ps
      → (u : Option T) × (h c ≡ some (record { t = u; next = none }))
        × (a ≤ c)
        × Joined (write c (some (record { t = u; next = some d })) h) a t xs l (us ++ vs)
  Joined-link a l t [] ps p c d [] vs h pp eq (e, f, g) = ground arith
  Joined-link a l t [] ps p c d (u ∷ us) vs h pp eq (e, f, g) = ground arith
  Joined-link a l t (x ∷ xs) ps p c d us vs h pp eq (b, ab, inl (e, rest)) =
      let (u, ec, bc, j) = Joined-link b l (some x) xs ps p c d us vs h pp eq rest in
      (u, ec, omega arith, (b, ab, inl (write-other c a _ h (λ d. omega arith) ∙ e, j)))
  Joined-link a l t (x ∷ xs) ps p c d [] vs h pp eq (b, ab, inr (q, qs, eq', pe, e, rest)) =
      let (same, same') = places-same p q c d a b pp pe (ground arith) in
      (
        t,
        ap h same ∙ e,
        omega arith,
        (
          b,
          ab,
          inl (
            ap (λ z. write z (some (record { t = t; next = some d })) h a) same
                ∙ write-same a _ h
                ∙ ap (λ z. some (record { t = t; next = some z })) same',
            Joined-write b c l (some x) xs vs h _ (omega arith)
                (subst (Joined h b (some x) xs l) (ground arith) rest),
          ),
        ),
      )
  Joined-link a l t (x ∷ xs) ps p c d (u ∷ us) vs h pp eq (b, ab, inr (q, qs, eq', pe, e, rest)) =
      let (w, ec, bc, j) = Joined-link b l (some x) xs qs p c d us vs h pp (ground arith) rest in
      (
        w,
        ec,
        omega arith,
        (
          b,
          ab,
          inr (u, us ++ vs, refl, ground arith, write-other c a _ h (λ d. omega arith) ∙ e, j),
        ),
      )
