-- ===== src/KvMpscMultik/OneKey/Books.antt =====
-- The messages of the locks, arrived, returned and waiting: none is lost or doubled.
use mathlib.Core.List.{Perm, perm_middle}
use mathlib.Core.List.Perm
use mathlib.Core.Logic.{ite}
use mathlib.Core.Option.{some-injective}
use pa_queue_and_chan.Prelude.{
  ℕ, ◌≡◌, refl, sym, ap, subst, ◌∙◌, true, false, Option, none, some, List, [], ◌∷◌, ◌++◌, Map, get,
  insert, remove, get-insert, get-remove, ℕ_discrete, to_list,
}
use pa_queue_and_chan.KvMpscMultik.Cells.{none-some, ite-yes, ite-no}
use pa_queue_and_chan.KvMpscMultik.Delivery.{true-false}
use pa_queue_and_chan.KvMpscMultik.OneKey.Locks.{
  Locks, Request, arrive, release, Step, takes, waits, hands_over, frees, with_waiting,
  without_waiting, free, waits_for, waits_for-none, waits_for-some, waits_for-same,
}

module _ {A : Type 0} where
  abbrev pub values : Map ℕ A → List A
  values [] = []
  values ((i, x) ∷ m) = x ∷ values m

  -- No key stands twice in the map.
  abbrev pub Unique : Map ℕ A → Type 0
  Unique [] = Unit
  Unique ((i, x) ∷ m) = (get ℕ_discrete i m ≡ none) × Unique m

  pub remove-absent : (i : ℕ) (m : Map ℕ A) → get ℕ_discrete i m ≡ none → remove ℕ_discrete i m ≡ m
  unfolding get remove
  remove-absent i [] e = refl
  remove-absent i ((j, x) ∷ m) e = elim (ℕ_discrete j i) [
    | yes p ↦ absurd (none-some (sym e ∙ ite-yes (ℕ_discrete j i) _ _ p))
    | no d ↦
        ite-no (ℕ_discrete j i) _ _ d
        ∙ ap (λ n. (j, x) ∷ n) (remove-absent i m (sym (ite-no (ℕ_discrete j i) _ _ d) ∙ e))
  ]

  pub remove-Unique : (i : ℕ) (m : Map ℕ A) → Unique m → Unique (remove ℕ_discrete i m)
  unfolding remove
  remove-Unique i [] u = tt
  remove-Unique i ((j, x) ∷ m) (f, u) = elim (ℕ_discrete j i) [
    | yes p ↦
        subst Unique (sym (ite-yes (ℕ_discrete j i) _ ((j, x) ∷ remove ℕ_discrete i m) p))
          (remove-Unique i m u)
    | no d ↦ subst Unique (sym (ite-no (ℕ_discrete j i) (remove ℕ_discrete i m) _ d)) (
      get-remove ℕ_discrete i j m ∙ ite-no (ℕ_discrete i j) _ _ (λ p. d (sym p)) ∙ f,
      remove-Unique i m u,
    )
  ]

  pub insert-Unique : (i : ℕ) (x : A) (m : Map ℕ A) → Unique m → Unique (insert ℕ_discrete i x m)
  unfolding insert
  insert-Unique i x m u =
      (get-remove ℕ_discrete i i m ∙ ite-yes (ℕ_discrete i i) _ _ refl, remove-Unique i m u)

  pub remove-perm :
      (i : ℕ) (x : A) (m : Map ℕ A)
      → Unique m
      → get ℕ_discrete i m ≡ some x
      → Perm (values m) (x ∷ values (remove ℕ_discrete i m))
  unfolding get remove
  remove-perm i x [] u e = absurd (none-some e)
  remove-perm i x ((j, y) ∷ m) (f, u) e = elim (ℕ_discrete j i) [
    | yes p ↦
        subst (Perm (y ∷ values m))
          (ap (λ z. z ∷ values m) (some-injective _ _ (sym (ite-yes (ℕ_discrete j i) _ _ p) ∙ e))
            ∙ ap (λ n. x ∷ values n)
                (sym (
                  ite-yes (ℕ_discrete j i) (remove ℕ_discrete i m) _ p
                  ∙ remove-absent i m (subst (λ z. get ℕ_discrete z m ≡ none) p f))))
          (Perm.refl (y ∷ values m))
    | no d ↦
        subst (λ n. Perm (y ∷ values m) (x ∷ values n))
          (sym (ite-no (ℕ_discrete j i) (remove ℕ_discrete i m) _ d))
          (Perm.trans (Perm.cons y (remove-perm i x m u (sym (ite-no (ℕ_discrete j i) _ _ d) ∙ e)))
            (Perm.swap x y (values (remove ℕ_discrete i m))))
  ]

ite-true : {P : Type 0} (d : Dec P) → ite d true false ≡ true → P
ite-true (yes p) e = p
ite-true (no n) e = absurd (true-false (sym e))

module _ {K V : Type 0} (key_eq : Discrete K) where
  -- The message of a request.
  abbrev pub arrivals : Request K V → List (K × V)
  arrivals (arrive k v) = (k, v) ∷ []
  arrivals (release k) = []

  pub record Books (l : Locks K V) (arrived returned : List (K × V)) : Type 0 where
    pub unique : Unique l.waits
    pub all : Perm arrived (returned ++ values l.waits)
    pub waiting_held : (id : ℕ) (k : K) → waits_for key_eq id k l ≡ true → l.held k ≡ true

  pub free-Books : Books free [] []
  unfolding waits_for get
  free-Books = record {
    unique = tt;
    all = Perm.refl [];
    waiting_held = λ id k h. absurd (true-false (sym h));
  }

  pub Step-Books :
      (l l' : Locks K V) (q : Request K V) (answer : Option (K × V)) (xs rs : List (K × V))
      → Step key_eq l q answer l'
      → get ℕ_discrete l.next l.waits ≡ none
      → Books l xs rs
      → Books l' (arrivals q ++ xs) (to_list answer ++ rs)
  unfolding waits_for insert
  Step-Books l _ _ _ xs rs (takes k v h) fresh b = record {
    unique = b.unique;
    all = Perm.cons (k, v) b.all;
    waiting_held = λ id j w. elim (key_eq k j) [
      | yes p ↦ ite-yes (key_eq k j) _ _ p
      | no d ↦ ite-no (key_eq k j) _ _ d ∙ b.waiting_held id j w
    ];
  }
  Step-Books l _ _ _ xs rs (waits k v h) fresh b = record {
    unique = insert-Unique l.next (k, v) l.waits b.unique;
    all =
        subst (λ n. Perm ((k, v) ∷ xs) (rs ++ (k, v) ∷ values n))
          (sym (remove-absent l.next l.waits fresh))
          (Perm.trans (Perm.cons (k, v) b.all) (Perm.symm (perm_middle rs (values l.waits))));
    waiting_held = λ id j w. elim (ℕ_discrete l.next id) [
      | yes p ↦
          subst (λ y. l.held y ≡ true)
            (ite-true (key_eq k j) (
              sym (
                waits_for-some key_eq id j k v (with_waiting k v l) (
                  get-insert ℕ_discrete l.next id (k, v) l.waits
                  ∙ ite-yes (ℕ_discrete l.next id) _ _ p))
              ∙ w))
            h
      | no d ↦ b.waiting_held id j (
          waits_for-same key_eq id j l (with_waiting k v l) (
            sym (
              get-insert ℕ_discrete l.next id (k, v) l.waits ∙ ite-no (ℕ_discrete l.next id) _ _ d))
          ∙ w)
    ];
  }
  Step-Books l _ _ _ xs rs (hands_over k v id h e) fresh b = record {
    unique = remove-Unique id l.waits b.unique;
    all = Perm.trans b.all (
        Perm.trans (Perm.append_left rs (remove-perm id (k, v) l.waits b.unique e))
          (perm_middle rs (values (remove ℕ_discrete id l.waits))));
    waiting_held = λ x j w. elim (ℕ_discrete id x) [
      | yes p ↦ absurd (
          true-false (
            sym w
            ∙ waits_for-none key_eq x j (without_waiting id l)
                (get-remove ℕ_discrete id x l.waits ∙ ite-yes (ℕ_discrete id x) _ _ p)))
      | no d ↦ b.waiting_held x j (
          waits_for-same key_eq x j l (without_waiting id l)
            (sym (get-remove ℕ_discrete id x l.waits ∙ ite-no (ℕ_discrete id x) _ _ d))
          ∙ w)
    ];
  }
  Step-Books l _ _ _ xs rs (frees k h nobody) fresh b = record {
    unique = b.unique;
    all = b.all;
    waiting_held = λ id j w. elim (key_eq k j) [
      | yes p ↦
          absurd (true-false (sym w ∙ subst (λ y. waits_for key_eq id y l ≡ false) p (nobody id)))
      | no d ↦ ite-no (key_eq k j) _ _ d ∙ b.waiting_held id j w
    ];
  }
