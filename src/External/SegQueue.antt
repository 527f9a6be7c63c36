-- ===== src/External/SegQueue.antt =====
-- crossbeam::queue::SegQueue: an unbounded first-in first-out queue. Each operation is atomic.
use pa_queue_and_chan.Prelude.{
  ◌≡◌, refl, ◌⊎◌, inl, inr, Bool, Option, none, some, List, [], ◌∷◌, ◌++◌, is_empty, arith,
}

-- What `pop` does on a queue of the given entries, oldest first.
abbrev pub Pops : {A Q : Type 0} → (Q → List A) → List A → Option (A × Q) → Type 0
Pops {A} {Q} view xs r =
    ((xs ≡ []) × (r ≡ none)) ⊎ ((a : A) × (q : Q) × (xs ≡ a ∷ view q) × (r ≡ some (a, q)))

pub record SegQueues : Type 1 where
  pub SegQueue : Type 0 → Type 0
  pub new : {A : Type 0} → SegQueue A
  pub push : {A : Type 0} → A → SegQueue A → SegQueue A
  pub pop : {A : Type 0} → SegQueue A → Option (A × SegQueue A)
  pub no_entry : {A : Type 0} → SegQueue A → Bool
  -- the entries, oldest first
  pub entries : {A : Type 0} → SegQueue A → List A
  pub entries-new : {A : Type 0} → entries (new {A = A}) ≡ []
  pub entries-push :
      {A : Type 0} (a : A) (q : SegQueue A) → entries (push a q) ≡ entries q ++ a ∷ []
  pub pop-Pops : {A : Type 0} (q : SegQueue A) → Pops entries (entries q) (pop q)
  pub no_entry_lem : {A : Type 0} (q : SegQueue A) → no_entry q ≡ is_empty (entries q)

-- What `pop` yields, by the entries.
module _ (Q : SegQueues) {A : Type 0} where
  pub pop-empty : (q : Q.SegQueue A) → Q.entries q ≡ [] → Q.pop q ≡ none
  pop-empty q e = elim (Q.pop-Pops q) [ inl (_, p) ↦ p | inr (a, rest, f, p) ↦ absurd (cc) ]

  pub pop-first :
      (q : Q.SegQueue A) (a : A) (xs : List A)
      → Q.entries q ≡ a ∷ xs
      → (rest : Q.SegQueue A) × (Q.pop q ≡ some (a, rest)) × (Q.entries rest ≡ xs)
  pop-first q a xs e = elim (Q.pop-Pops q) [
    | inl (f, p) ↦ absurd (cc)
    | inr (b, rest, f, p) ↦ (rest, ground arith, ground arith)
  ]

abbrev pub list_pop : {A : Type 0} → List A → Option (A × List A)
list_pop [] = none
list_pop (a ∷ q) = some (a, q)

pub list_pop-Pops : {A : Type 0} (q : List A) → Pops (λ xs. xs) q (list_pop q)
list_pop-Pops [] = inl (refl, refl)
list_pop-Pops (a ∷ q) = inr (a, q, refl, refl)

-- The laws can be met.
abbrev pub list_queues : SegQueues
list_queues = record {
  SegQueue = List;
  new = [];
  push = λ a q. q ++ a ∷ [];
  pop = list_pop;
  no_entry = is_empty;
  entries = λ q. q;
  entries-new = refl;
  entries-push = λ a q. refl;
  pop-Pops = list_pop-Pops;
  no_entry_lem = λ q. refl;
}
