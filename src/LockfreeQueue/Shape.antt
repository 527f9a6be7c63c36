-- ===== src/LockfreeQueue/Shape.antt =====
-- lockfree_link_queue.rs: the chain of the nodes of a queue.
use pa_queue_and_chan.Prelude.{
  ℕ, ◌<◌, ◌≤◌, ◌≡◌, ◌≢◌, refl, arith, Option, none, some, List, [], ◌∷◌, ◌++◌, length,
}
use pa_queue_and_chan.LockfreeQueue.Memory.{Node, LockfreeMpscLinkQueue, write}

module _ {T : Type 0} where
  -- From the node at `a`, whose value is `t`, the nodes that follow hold `xs` and `l` is the last;
  -- later nodes have later places.
  abbrev pub Chain : (ℕ → Option (Node T)) → ℕ → Option T → List T → ℕ → Type 0
  Chain h a t [] l = (h a ≡ some (record { t = t; next = none })) × (a ≡ l)
  Chain h a t (x ∷ xs) l =
      (b : ℕ) × (h a ≡ some (record { t = t; next = some b })) × (a < b) × Chain h b (some x) xs l

  -- The queue holds `xs`, oldest first, behind its dummy node.
  abbrev pub Holds : List T → LockfreeMpscLinkQueue T → Type 0
  Holds xs q =
      Chain q.heap q.dummyhead none xs q.tail × (q.cnt ≡ length xs) × (q.tail < q.free_place)

  pub write-same : (a : ℕ) (n : Option (Node T)) (h : ℕ → Option (Node T)) → write a n h a ≡ n
  write-same a n h = ground arith

  pub write-other :
      (a b : ℕ) (n : Option (Node T)) (h : ℕ → Option (Node T)) → a ≢ b → write a n h b ≡ h b
  write-other a b n h d = ground arith

  pub Chain-write :
      (a c l : ℕ) (t : Option T) (xs : List T) (h : ℕ → Option (Node T)) (n : Option (Node T))
      → c < a
      → Chain h a t xs l
      → Chain (write c n h) a t xs l
  Chain-write a c l t [] h n lt (e, f) = (ground arith, f)
  Chain-write a c l t (x ∷ xs) h n lt (b, e, ab, rest) =
      (b, ground arith, ab, Chain-write b c l (some x) xs h n (omega arith) rest)

  -- A chain with one more node at its end.
  pub Chain-snoc :
      (a l n : ℕ) (t : Option T) (xs : List T) (x : T) (h : ℕ → Option (Node T))
      → l < n
      → Chain h a t xs l
      → (u : Option T) × (h l ≡ some (record { t = u; next = none }))
        × (a ≤ l)
        × Chain
            (write l
              (some (record { t = u; next = some n }))
              (write n (some (record { t = some x; next = none })) h))
            a
            t
            (xs ++ x ∷ [])
            n
  Chain-snoc a l n t [] x h lt (e, f) =
      (t, ground arith, ground arith, (n, ground arith, ground arith, (ground arith, refl)))
  Chain-snoc a l n t (y ∷ xs) x h lt (b, e, ab, rest) =
      let (u, el, bl, chain) = Chain-snoc b l n (some y) xs x h lt rest in
      (u, el, omega arith, (b, ground arith, ab, chain))
