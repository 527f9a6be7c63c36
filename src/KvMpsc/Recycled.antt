-- ===== src/KvMpsc/Recycled.antt =====
-- kv_mpsc.rs: what the loop of `drop_msg_after_a_while` receives.
use pa_queue_and_chan.Prelude.{
  ℕ, ◌≤◌, ◌<◌, ◌≡◌, refl, sym, subst, ◌∙◌, inl, inr, arith, Bool, Bool-cases, Option, none, some,
  List, [], ◌∷◌, ◌++◌, length, ok, Option-cases, append_assoc, append-nil, count, ◌==◌, ◌||◌,
}
use pa_queue_and_chan.External.Setting.{Setting}
use pa_queue_and_chan.KvMpsc.Defs.{Message, Pc, waiting, Channel, drop_message, notify}
use pa_queue_and_chan.KvMpsc.System.{System, Reach, next, message_drops, notifies}
use pa_queue_and_chan.KvMpsc.Keys.{held_keys}
use pa_queue_and_chan.KvMpsc.Alone.{Seen}
use pa_queue_and_chan.KvMpsc.Invariant.{Reach-Inv, HaveKeys}
use pa_queue_and_chan.KvMpsc.Recycle.{drop_all, clear, recycle}
use pa_queue_and_chan.KvMpsc.Stepping.{Running, Rests}

module _ (S : Setting) where
  open S use {K, V, key_eq, queues as Q, events as E}

  pub Rests-Seen : (c : Channel S) (o : Option (Pc S)) → Rests S o → Seen S c o
  Rests-Seen c none w = tt
  Rests-Seen c (some (waiting l)) w = tt
  Rests-Seen c (some p) w = absurd w

  has_key :
      (pre ms : List (Message S)) (m : Message S)
      → HaveKeys S (pre ++ m ∷ ms)
      → (k : K) × (m.k ≡ some k)
  has_key [] ms m h = elim (Option-cases m.k) [ inl e ↦ absurd (cc (e, h.0)) | inr (k, e) ↦ (k, e) ]
  has_key (x ∷ pre) ms m h = has_key pre ms m h.1

  drop-ok :
      (m : Message S) (k : K) (c : Channel S)
      → m.k ≡ some k
      → drop_message S m c ≡ ok (record c { drop_key_q = Q.push k c.drop_key_q })
  unfolding drop_message
  drop-ok m k c e = rw (e) refl

  drop_all-Running :
      (xs : List (K × V)) (cnt : ℕ) (s : System S) (pre ms : List (Message S))
      → Rests S s.pc
      → Running S (pre ++ ms) xs cnt s
      → (d : Channel S) × (drop_all S ms s.chan ≡ ok d)
        × Running S pre xs cnt (record s { chan = d; held = pre })
  unfolding drop_all notify
  drop_all-Running xs cnt s pre [] w i = (
    s.chan,
    refl,
    record {
      reach = subst (λ h. Reach S (record s { held = h })) (i.same ∙ append-nil pre) i.reach;
      gone = i.gone;
      alive = i.alive;
      due = i.due;
      all = i.all;
      same = refl;
      seen = i.seen;
      counts = i.counts;
    },
  )
  drop_all-Running xs cnt s pre (m ∷ ms) w i =
      let (d, e, j) =
        drop_all-Running xs cnt s (pre ++ m ∷ []) ms w
          (subst (λ h. Running S h xs cnt s) (sym (append_assoc pre (m ∷ []) ms)) i) in
      let (k, f) = has_key pre [] m (Reach-Inv S j.reach).keyed in
      let g = drop-ok m k d f in
      let c = record d { drop_key_q = Q.push k d.drop_key_q } in
      let r = next (next j.reach (message_drops m pre [] c refl g)) (notifies s.notifying refl) in
      (
        notify S c,
        rw (drop_all, e, g) refl,
        record {
          reach =
              subst (λ h. Reach S (record s { chan = notify S c; held = h })) (append-nil pre) r;
          gone = j.gone;
          alive = j.alive;
          due = i.due;
          all = i.all;
          same = refl;
          seen = Rests-Seen (notify S c) s.pc w;
          counts = i.counts;
        },
      )

  -- All received messages are dropped.
  pub clear-Running :
      (held : List (Message S)) (xs : List (K × V)) (cnt : ℕ) (s : System S)
      → Rests S s.pc
      → Running S held xs cnt s
      → (t : System S) × (clear S s ≡ ok t) × Rests S t.pc × Running S [] xs cnt t
  unfolding clear
  clear-Running held xs cnt s w i =
      let (d, e, j) =
        drop_all-Running xs cnt s [] s.held w (subst (λ h. Running S h xs cnt s) (sym i.same) i) in
      (record s { chan = d; held = [] }, rw (e) refl, w, j)

  abbrev pub busy : List (Message S) → ℕ
  busy [] = 0
  busy (m ∷ ms) = 1

  pub busy_le : (ms : List (Message S)) → busy ms ≤ 1
  busy_le [] = omega arith
  busy_le (m ∷ ms) = omega arith

  pub held-busy :
      (k : K) (ms : List (Message S)) → 0 < count key_eq k (held_keys S ms) → busy ms ≡ 1
  unfolding count
  held-busy k [] h = absurd (omega (arith, h))
  held-busy k (m ∷ ms) h = refl

  -- They are all dropped, or kept.
  pub recycle-Running :
      (limit : ℕ) (late : Bool) (held : List (Message S)) (xs : List (K × V)) (cnt : ℕ)
      (s : System S)
      → Rests S s.pc
      → Running S held xs cnt s
      → (t : System S) × (ms : List (Message S)) × (recycle S limit late s ≡ ok t)
        × Rests S t.pc
        × Running S ms xs cnt t
  unfolding recycle
  recycle-Running limit late held xs cnt s w i =
      elim (Bool-cases (length s.held == limit || late)) [
        | inl e ↦ let (t, h, w2, j) = clear-Running held xs cnt s w i in (t, [], rw (e) h, w2, j)
        | inr e ↦ (s, held, rw (e) refl, w, i)
      ]
