-- ===== src/KvMpscMultik/Taking.antt =====
-- kv_mpsc_multik.rs: keys that become keys in use.
use mathlib.Core.Logic.{ite}
use pa_queue_and_chan.Prelude.{
  ℕ, ◌+◌, ◌<◌, ◌≡◌, refl, sym, ap, subst, ◌∙◌, inl, inr, arith, Bool, true, none, some, List, [],
  ◌∷◌, get, Outcome, ok, count, contains, Outcome-cases, ok-injective, ◌>>=◌,
}
use pa_queue_and_chan.KvMpscMultik.Conflict.{KeyStateInner, ConflictManager, set_use, new_state}
use pa_queue_and_chan.KvMpscMultik.Manager.{use_keys, entry}
use pa_queue_and_chan.KvMpscMultik.Entry.{entry-Enters}
use pa_queue_and_chan.KvMpscMultik.Cells.{
  Mapped, with_cell, with_cell-Mapped, flag-some, flag-with_cell, set_use-ok, ite-yes, ite-no,
  panic-ok,
}
use pa_queue_and_chan.KvMpscMultik.Using.{weight, listed, Sound, Calm, Sound-Calm, Sound-held}

-- The parts of a run that ends well.
pub ok_parts {ℓ κ} :
    {A : Type ℓ} {B : Type κ} (m : Outcome A) (f : A → Outcome B) (b : B)
    → m >>= f ≡ ok b
    → (a : A) × (m ≡ ok a) × (f a ≡ ok b)
ok_parts m f b h = elim (Outcome-cases m) [
  | inl e ↦ absurd (panic-ok (rw (e) at h))
  | inr (a, e) ↦ (a, e, rw (e) at h)
]

pub weight-taken :
    {P : Type 0} (d : Dec P) (b : Bool) (n : ℕ)
    → weight b ≡ n
    → (P → n ≡ 0)
    → weight (ite d true b) ≡ ite d 1 0 + n
weight-taken (yes p) b n e z = omega (arith, z p)
weight-taken (no d) b n e z = omega (arith, e)

module _ {K V : Type 0} (key_eq : Discrete K) where
  -- A change of the cell of a key that keeps its list.
  pub with_cell-Calm :
      (k : K) (r : ℕ) (c : KeyStateInner K) (m : ConflictManager K V)
      → Mapped key_eq m
      → get key_eq k m.keys_states ≡ some r
      → c.k ≡ (m.cells r).k
      → c.waitingmsgs ≡ (m.cells r).waitingmsgs
      → Calm key_eq none m (with_cell key_eq r c m)
  with_cell-Calm k r c m w e kc lc = record {
    still_mapped = with_cell-Mapped key_eq k r c m w e kc;
    keeps = λ j s g. g;
    same_listed = λ id j d.
        flag-with_cell key_eq (λ x. contains id x.waitingmsgs) k j r c m w e ∙ elim (key_eq k j) [
          | yes p ↦
              ite-yes (key_eq k j) _ _ p
              ∙ ap (contains id) lc
              ∙ sym (flag-some key_eq (λ x. contains id x.waitingmsgs) k r m e)
              ∙ ap (λ x. listed key_eq id x m) p
          | no n ↦ ite-no (key_eq k j) _ _ n
        ];
    same_msgs = refl;
    same_id = refl;
  }

  pub entry-Calm :
      (k : K) (m : ConflictManager K V) → Mapped key_eq m → Calm key_eq none m (entry key_eq k m).1
  unfolding new_state contains
  entry-Calm k m w =
      let e = entry-Enters key_eq k m w in
      record {
        still_mapped = e.mapped;
        keeps = e.keeps;
        same_listed = λ id j d. e.flags (λ x. contains id x.waitingmsgs) refl j;
        same_msgs = e.same_msgs;
        same_id = e.same_id;
      }

  -- A key that is taken was not held, and is held once then.
  pub set_use-Sound :
      (held : K → ℕ) (k : K) (r : ℕ) (m : ConflictManager K V) (cells : ℕ → KeyStateInner K)
      → get key_eq k m.keys_states ≡ some r
      → set_use r m.cells ≡ ok cells
      → Sound key_eq held m
      → Sound key_eq (λ j. ite (key_eq k j) 1 0 + held j) (record m { cells = cells })
        × (held k ≡ 0)
  set_use-Sound held k r m cells e h s =
      let (free, c) = set_use-ok r m.cells cells h in
      let none_held = sym (s.owns k) ∙ ap weight (flag-some key_eq (λ x. x.using) k r m e ∙ free) in
      (
        rw (c) (
            Sound-Calm key_eq held _
              (with_cell-Calm k r (record (m.cells r) { using = true }) m s.mapped e refl refl)
              (λ j.
                ap weight (flag-with_cell key_eq (λ x. x.using) k j r _ m s.mapped e)
                ∙ weight-taken (key_eq k j) _ (held j) (s.owns j)
                    (λ p. subst (λ x. held x ≡ 0) p none_held))
              s),
        none_held,
      )

  pub use_keys-Sound :
      (ks : List K) (held : K → ℕ) (m m' : ConflictManager K V)
      → use_keys key_eq ks m ≡ ok m'
      → Sound key_eq held m
      → Sound key_eq (λ j. count key_eq j ks + held j) m'
        × ((j : K) → 0 < count key_eq j ks → held j ≡ 0)
  unfolding use_keys count
  use_keys-Sound [] held m m' h s = (
    Sound-held key_eq held _ (λ j. omega arith) (subst (Sound key_eq held) (ok-injective h) s),
    (λ j z. absurd (omega arith)),
  )
  use_keys-Sound (k ∷ ks) held m m' h s =
      let e = entry-Enters key_eq k m s.mapped in
      let s1 =
        Sound-Calm key_eq held held (entry-Calm k m s.mapped)
          (λ j. ap weight (e.flags (λ x. x.using) refl j) ∙ s.owns j) s in
      let (cells, h1, h2) =
        ok_parts (set_use (entry key_eq k m).0 (entry key_eq k m).1.cells) _ m' h in
      let (s2, z) =
        set_use-Sound held k (entry key_eq k m).0 (entry key_eq k m).1 cells e.found h1 s1 in
      let (s3, y) = use_keys-Sound ks _ _ m' h2 s2 in
      (
        Sound-held key_eq _ _ (λ j. omega arith) s3,
        (λ j p. elim (key_eq k j) [
          | yes q ↦ subst (λ x. held x ≡ 0) q z
          | no n ↦ omega (arith, y j (omega (arith, p, ite-no {A = ℕ} (key_eq k j) 1 0 n)))
        ]),
      )
