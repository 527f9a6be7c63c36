-- ===== src/KvMpscMultik/Kept.antt =====
-- kv_mpsc_multik.rs: the waiting messages of the manager, and what leaves them as they are.
use mathlib.Core.List.{reverse}
use pa_queue_and_chan.Prelude.{ℕ, ◌≡◌, sym, ◌∙◌, some, List, [], get, ok, ℕ_discrete}
use pa_queue_and_chan.KvMpscMultik.Conflict.{WaitingMsg, ConflictManager, take_kv}
use pa_queue_and_chan.KvMpscMultik.Cells.{Mapped}
use pa_queue_and_chan.KvMpscMultik.Using.{Sound, AllMapped, AllMapped-keeps, Distinct}
use pa_queue_and_chan.KvMpscMultik.Release.{take_keys-AllMapped}
use pa_queue_and_chan.KvMpscMultik.Searched.{AllMapped-reverse_aux, take_kv-ok}
use pa_queue_and_chan.KvMpscMultik.Frames.{IsWaiting}

module _ {K V : Type 0} (key_eq : Discrete K) where
  pub taken :
      (rs : List ℕ) (ks : List K) (v : V) (msg : WaitingMsg V) (m : ConflictManager K V)
      → Mapped key_eq m
      → msg.ks_v ≡ some (rs, v)
      → AllMapped key_eq m.keys_states rs ks
      → take_kv m.cells msg ≡ ok (reverse ks, v)
  taken rs ks v msg m w e a = take_kv-ok m.cells msg rs (reverse ks) v e (
      take_keys-AllMapped key_eq (reverse rs) (reverse ks) m w
        (AllMapped-reverse_aux key_eq m.keys_states rs [] ks [] a tt))

  -- The waiting message with the given id has its references.
  pub parts_of_id :
      (held : K → ℕ) (id : ℕ) (msg : WaitingMsg V) (m : ConflictManager K V)
      → Sound key_eq held m
      → get ℕ_discrete id m.waitingmsgs ≡ some msg
      → (rs : List ℕ) × (ks : List K) × (v : V) × (msg.ks_v ≡ some (rs, v))
        × AllMapped key_eq m.keys_states rs ks
        × Distinct key_eq ks
        × IsWaiting m id (reverse ks) v
  parts_of_id held id msg m s g =
      let (_, (rs, ks, v, e, w, d)) = s.msgs id msg g in
      (rs, ks, v, e, w.refs, d, (msg, g, taken rs ks v msg m s.mapped e w.refs))

  -- The states of keys stay where they are.
  abbrev pub StatesStay : ConflictManager K V → ConflictManager K V → Type 0
  StatesStay m m' =
      (j : K) (r : ℕ) → get key_eq j m.keys_states ≡ some r → get key_eq j m'.keys_states ≡ some r

  -- Then a message waits on, with its keys and its value.
  pub IsWaiting-stays :
      (held : K → ℕ) (m m' : ConflictManager K V) (id : ℕ) (ks : List K) (v : V)
      → Sound key_eq held m
      → Mapped key_eq m'
      → StatesStay m m'
      → get ℕ_discrete id m'.waitingmsgs ≡ get ℕ_discrete id m.waitingmsgs
      → IsWaiting m id ks v
      → IsWaiting m' id ks v
  IsWaiting-stays held m m' id ks v s w f e (msg, g, t) =
      let (rs, js, u, q, refs, _, _) = parts_of_id held id msg m s g in
      (
        msg,
        e ∙ g,
        taken rs js u msg m' w q (AllMapped-keeps key_eq m.keys_states m'.keys_states rs js f refs)
            ∙ sym (taken rs js u msg m s.mapped q refs)
            ∙ t,
      )
