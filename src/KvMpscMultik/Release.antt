-- ===== src/KvMpscMultik/Release.antt =====
-- kv_mpsc_multik.rs: the parts of the release of a key, and the invariant.
use mathlib.Core.Logic.{ite}
use mathlib.Core.Option.{some-injective}
use pa_queue_and_chan.Prelude.{
  ℕ, ◌+◌, ◌≡◌, refl, sym, ap, subst, ◌∙◌, inl, inr, arith, Bool, true, false, Option, none, some,
  List, [], ◌∷◌, Map, get, ok, ℕ_discrete, count, contains, Bool-cases, Option-cases, ok-injective,
}
use pa_queue_and_chan.KvMpscMultik.Conflict.{
  KeyStateInner, WaitingMsg, ConflictManager, take_keys, set_use, set_unuse, try_set_use,
  try_set_all, any_using, find_msg,
}
use pa_queue_and_chan.KvMpscMultik.Cells.{
  Mapped, flag-with_cell, set_unuse-ok, ite-yes, ite-no, none-some, panic-ok,
}
use pa_queue_and_chan.KvMpscMultik.Using.{weight, Sound, Sound-Calm, Sound-held, AllMapped}
use pa_queue_and_chan.KvMpscMultik.Taking.{ok_parts, with_cell-Calm, set_use-Sound}

weight-freed :
    {P : Type 0} (d : Dec P) (b : Bool) (n : ℕ)
    → weight b ≡ ite d 1 0 + n
    → weight (ite d false b) ≡ n
weight-freed (yes p) true n e = omega (arith, e)
weight-freed (yes p) false n e = omega (arith, e)
weight-freed (no d) b n e = omega (arith, e)

ite-const : {P : Type 0} (d : Dec P) (n : ℕ) → ite d n n ≡ n
ite-const (yes p) n = refl
ite-const (no d) n = refl

pub contains-behind :
    (i id : ℕ) (ids : List ℕ)
    → contains id ids ≡ true
    → ite (ℕ_discrete i id) true (contains id ids) ≡ true
contains-behind i id ids c = ground (arith, c)

-- The key that is skipped, and another that is counted.
count-skipped :
    {P Q : Type 0} (d : Dec P) (e : Dec Q) (n h : ℕ)
    → (Q → P)
    → ite d 0 n + h ≡ ite d 0 (ite e 1 0 + n) + h
count-skipped (yes p) e n h f = refl
count-skipped (no d) (yes q) n h f = absurd (d (f q))
count-skipped (no d) (no q) n h f = omega arith

count-taken :
    {P Q : Type 0} (d : Dec P) (e : Dec Q) (n h : ℕ)
    → (P → Q → ⊥)
    → ite d 0 n + (ite e 1 0 + h) ≡ ite d 0 (ite e 1 0 + n) + h
count-taken (yes p) (yes q) n h f = absurd (f p q)
count-taken (yes p) (no q) n h f = omega arith
count-taken (no d) e n h f = omega arith

module _ {K V : Type 0} (key_eq : Discrete K) where
  -- The manager with another store.
  abbrev pub in_store : ConflictManager K V → (ℕ → KeyStateInner K) → ConflictManager K V
  in_store m cells = record m { cells = cells }

  pub set_unuse-Sound :
      (held : K → ℕ) (k : K) (r : ℕ) (m : ConflictManager K V) (cells : ℕ → KeyStateInner K)
      → get key_eq k m.keys_states ≡ some r
      → set_unuse r m.cells ≡ ok cells
      → Sound key_eq (λ j. ite (key_eq k j) 1 0 + held j) m
      → Sound key_eq held (in_store m cells)
  set_unuse-Sound held k r m cells e h s =
      let (used, c) = set_unuse-ok r m.cells cells h in
      rw (c) (
        Sound-Calm key_eq _ held
          (with_cell-Calm key_eq k r (record (m.cells r) { using = false }) m s.mapped e refl refl)
          (λ j.
            ap weight (flag-with_cell key_eq (λ x. x.using) k j r _ m s.mapped e)
            ∙ weight-freed (key_eq k j) _ (held j) (s.owns j))
          s)

  -- The search leaves the store alone if it finds nothing.
  pub find_msg-none :
      (r : ℕ) (msgs : Map ℕ (WaitingMsg V)) (ids : List ℕ) (cells cells' : ℕ → KeyStateInner K)
      → find_msg r msgs ids cells ≡ ok (none, cells')
      → cells ≡ cells'
  unfolding find_msg
  find_msg-none r msgs [] cells cells' h = ap (λ p. p.1) (ok-injective h)
  find_msg-none r msgs (id ∷ ids) cells cells' h = elim (Option-cases (get ℕ_discrete id msgs)) [
    | inl g ↦ absurd (panic-ok (rw (g) at h))
    | inr (msg, g) ↦ elim (Option-cases msg.ks_v) [
      | inl v ↦ absurd (panic-ok (rw (g, v) at h))
      | inr (ks_v, v) ↦ elim (Bool-cases (any_using ks_v.0 cells)) [
        | inl u ↦ find_msg-none r msgs ids cells cells' (rw (g, v, u) at h)
        | inr u ↦
            let (c, _, h2) =
              ok_parts (try_set_all r ks_v.0 cells) (λ c. ok (some id, c)) (none, cells')
                (rw (g, v, u) at h) in
            absurd (none-some (sym (ap (λ p. p.0) (ok-injective h2))))
      ]
    ]
  ]

  -- The search finds a message of the list, and takes the keys that are not searched.
  pub find_msg-some :
      (r id : ℕ) (msgs : Map ℕ (WaitingMsg V)) (ids : List ℕ) (cells cells' : ℕ → KeyStateInner K)
      → find_msg r msgs ids cells ≡ ok (some id, cells')
      → (contains id ids ≡ true)
        × ((msg : WaitingMsg V) × (ks_v : List ℕ × V) × (get ℕ_discrete id msgs ≡ some msg)
            × (msg.ks_v ≡ some ks_v)
            × (try_set_all r ks_v.0 cells ≡ ok cells'))
  unfolding find_msg contains
  find_msg-some r id msgs [] cells cells' h = absurd (none-some (ap (λ p. p.0) (ok-injective h)))
  find_msg-some r id msgs (i ∷ ids) cells cells' h = elim (Option-cases (get ℕ_discrete i msgs)) [
    | inl g ↦ absurd (panic-ok (rw (g) at h))
    | inr (msg, g) ↦ elim (Option-cases msg.ks_v) [
      | inl v ↦ absurd (panic-ok (rw (g, v) at h))
      | inr (ks_v, v) ↦ elim (Bool-cases (any_using ks_v.0 cells)) [
        | inl u ↦
            let (c, found) = find_msg-some r id msgs ids cells cells' (rw (g, v, u) at h) in
            (contains-behind i id ids c, found)
        | inr u ↦
            let (c, h1, h2) =
              ok_parts (try_set_all r ks_v.0 cells) (λ c. ok (some i, c)) (some id, cells')
                (rw (g, v, u) at h) in
            let p = ok-injective h2 in
            let same = some-injective _ _ (ap (λ (x : Option ℕ × (ℕ → KeyStateInner K)). x.0) p) in
            (
              ite-yes (ℕ_discrete i id) _ _ same,
              (
                msg,
                ks_v,
                subst (λ x. get ℕ_discrete x msgs ≡ some msg) same g,
                v,
                h1 ∙ ap (λ (x : Option ℕ × (ℕ → KeyStateInner K)). ok x.1) p,
              ),
            )
      ]
    ]
  ]

  -- `try_set_all` takes every key but the searched one.
  pub try_set_all-Sound :
      (rs : List ℕ) (ks : List K) (held : K → ℕ) (k : K) (r : ℕ) (m : ConflictManager K V)
      (cells : ℕ → KeyStateInner K)
      → get key_eq k m.keys_states ≡ some r
      → AllMapped key_eq m.keys_states rs ks
      → try_set_all r rs m.cells ≡ ok cells
      → Sound key_eq held m
      → Sound key_eq (λ j. ite (key_eq k j) 0 (count key_eq j ks) + held j) (in_store m cells)
  unfolding try_set_all try_set_use count
  try_set_all-Sound [] [] held k r m cells e a h s =
      Sound-held key_eq held _ (λ j. omega (arith, ite-const (key_eq k j) 0))
        (subst (λ c. Sound key_eq held (in_store m c)) (ok-injective h) s)
  try_set_all-Sound (q ∷ rs) (j ∷ ks) held k r m cells e a h s = elim (ℕ_discrete r q) [
    | yes p ↦
        let same : k ≡ j =
          some-injective _ _
            (sym (s.mapped k r e).1 ∙ ap (λ x. (m.cells x).k) p ∙ (s.mapped j q a.0).1) in
        Sound-held key_eq _ _
          (λ i. count-skipped (key_eq k i) (key_eq j i) _ (held i) (λ x. same ∙ x))
          (try_set_all-Sound rs ks held k r m cells e a.1
            (rw (ite-yes (ℕ_discrete r q) (ok m.cells) (set_use q m.cells) p) at h) s)
    | no n ↦
        let (c, h1, h2) =
          ok_parts (set_use q m.cells) (λ c. try_set_all r rs c) cells
            (rw (ite-no (ℕ_discrete r q) (ok m.cells) (set_use q m.cells) n) at h) in
        let (s1, _) = set_use-Sound key_eq held j q m c a.0 h1 s in
        Sound-held key_eq _ _
          (λ i. count-taken (key_eq k i) (key_eq j i) _ (held i) (λ x y. n (
            some-injective _ _
              (sym e ∙ subst (λ z. get key_eq z m.keys_states ≡ some q) (y ∙ sym x) a.0))))
          (try_set_all-Sound rs ks _ k r (in_store m c) cells e a.1 h2 s1)
  ]
  try_set_all-Sound [] (j ∷ ks) held k r m cells e a h s = absurd a
  try_set_all-Sound (q ∷ rs) [] held k r m cells e a h s = absurd a

  pub take_keys-AllMapped :
      (rs : List ℕ) (ks : List K) (m : ConflictManager K V)
      → Mapped key_eq m
      → AllMapped key_eq m.keys_states rs ks
      → take_keys m.cells rs ≡ ok ks
  unfolding take_keys
  take_keys-AllMapped [] [] m w a = refl
  take_keys-AllMapped (r ∷ rs) (k ∷ ks) m w a =
      rw ((w k r a.0).1, take_keys-AllMapped rs ks m w a.1) refl
  take_keys-AllMapped [] (k ∷ ks) m w a = absurd a
  take_keys-AllMapped (r ∷ rs) [] m w a = absurd a
