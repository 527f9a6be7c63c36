-- ===== src/KvMpscMultik/Threads/Held.antt =====
-- kv_mpsc_multik.rs: the keys that messages hold, and the invariant of the channel.
use pa_queue_and_chan.Prelude.{
  ℕ, ◌+◌, ◌≡◌, arith, Option, none, some, List, [], ◌∷◌, ◌++◌, count, count-append, length,
}
use pa_queue_and_chan.External.Setting.{Setting}
use pa_queue_and_chan.KvMpscMultik.Using.{Distinct}
use pa_queue_and_chan.KvMpscMultik.Channels.{Message, Pc}
use pa_queue_and_chan.KvMpscMultik.Threads.System.{System}
use pa_queue_and_chan.KvMpscMultik.Threads.Owners.{IsCalm, AllDistinct, Owns, pc_returned}
use pa_queue_and_chan.KvMpscMultik.Threads.Wake.{Registered, Seen}

module _ (S : Setting) where
  open S use {K, V, key_eq, queues as Q, events as E}

  abbrev pub message_keys : List (Message S) → List K
  message_keys [] = []
  message_keys (m ∷ ms) = m.ks ++ message_keys ms

  abbrev pub all_keys : List (List K) → List K
  all_keys [] = []
  all_keys (ks ∷ xs) = ks ++ all_keys xs

  -- How often a key is held, by messages that are kept and by those that are being dropped.
  abbrev pub holds : System S → K → ℕ
  holds s k = count key_eq k (message_keys s.held) + count key_eq k (all_keys s.dropping)

  abbrev pub Calm : Option (Pc S) → Type 0
  Calm none = Unit
  Calm (some p) = IsCalm S p

  -- The threads that have yet to notify the receiver.
  abbrev pub due : System S → ℕ
  due s = s.notifying + length s.dropping

  pub record Inv (s : System S) : Type 0 where
    pub owns :
        Calm s.pc
        → Owns S (holds s) s.chan s.receiver (pc_returned S s.pc)
          × AllDistinct S (Q.entries s.chan.q)
    pub distinct : AllDistinct S s.sending
    pub registered : Registered S s.chan.wake_recv_event s.receiver.event_listener s.pc
    pub seen : Seen S (due s) s.chan s.receiver s.pc

  pub AllDistinct-snoc :
      (ks : List K) (v : V) (xs : List (List K × V))
      → Distinct key_eq ks
      → AllDistinct S xs
      → AllDistinct S (xs ++ (ks, v) ∷ [])
  AllDistinct-snoc ks v [] d a = (d, tt)
  AllDistinct-snoc ks v ((js, w) ∷ xs) d a = (a.0, AllDistinct-snoc ks v xs d a.1)

  pub AllDistinct-remove :
      (ks : List K) (v : V) (xs ys : List (List K × V))
      → AllDistinct S (xs ++ (ks, v) ∷ ys)
      → Distinct key_eq ks × AllDistinct S (xs ++ ys)
  AllDistinct-remove ks v [] ys a = a
  AllDistinct-remove ks v ((js, w) ∷ xs) ys (d, a) =
      let (e, b) = AllDistinct-remove ks v xs ys a in (e, (d, b))

  pub count-message_keys :
      (k : K) (m : Message S) (xs ys : List (Message S))
      → count key_eq k (message_keys (xs ++ m ∷ ys))
        ≡ count key_eq k m.ks + count key_eq k (message_keys (xs ++ ys))
  count-message_keys k m [] ys = count-append key_eq k m.ks (message_keys ys)
  count-message_keys k m (x ∷ xs) ys = omega (
    arith,
    count-append key_eq k x.ks (message_keys (xs ++ m ∷ ys)),
    count-append key_eq k x.ks (message_keys (xs ++ ys)),
    count-message_keys k m xs ys,
  )

  pub count-all_keys :
      (k : K) (ks : List K) (xs ys : List (List K))
      → count key_eq k (all_keys (xs ++ ks ∷ ys))
        ≡ count key_eq k ks + count key_eq k (all_keys (xs ++ ys))
  count-all_keys k ks [] ys = count-append key_eq k ks (all_keys ys)
  count-all_keys k ks (x ∷ xs) ys = omega (
    arith,
    count-append key_eq k x (all_keys (xs ++ ks ∷ ys)),
    count-append key_eq k x (all_keys (xs ++ ys)),
    count-all_keys k ks xs ys,
  )
