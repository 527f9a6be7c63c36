-- ===== src/KvMpscMultik/Settled.antt =====
-- kv_mpsc_multik.rs: the messages and the held keys after the release of a key.
use mathlib.Core.List.{perm_middle}
use mathlib.Core.List.Perm
use mathlib.Core.Logic.{ite}
use pa_queue_and_chan.Prelude.{
  ℕ, ◌+◌, ◌≡◌, sym, ap, subst, ◌∙◌, inl, inr, Option, some, List, ◌∷◌, ◌++◌, get, remove,
  get-remove, ok, ℕ_discrete, count, count-append, contains, to_list,
}
use pa_queue_and_chan.KvMpscMultik.Conflict.{ConflictManager}
use pa_queue_and_chan.KvMpscMultik.Manager.{unuse_key}
use pa_queue_and_chan.KvMpscMultik.Cells.{ite-yes, ite-no}
use pa_queue_and_chan.KvMpscMultik.Using.{Sound, Sound-held}
use pa_queue_and_chan.KvMpscMultik.Arrival.{keys_taken}
use pa_queue_and_chan.KvMpscMultik.Frames.{IsWaiting, SameKeys, take_kv-keeps}
use pa_queue_and_chan.KvMpscMultik.Searched.{unuse_key-Sound}
use pa_queue_and_chan.KvMpscMultik.Outcomes.{unuse_key-Settles}
use pa_queue_and_chan.KvMpscMultik.OneKey.Books.{values, remove-Unique, remove-perm}
use pa_queue_and_chan.KvMpscMultik.Accounts.{Stored, Accounts, get-waiting, Stored-keeps}

module _ {K : Type 0} (key_eq : Discrete K) where
  -- One holder of the key `k` is gone.
  abbrev pub IsLess : K → List K → List K → Type 0
  IsLess k held rest = (j : K) → count key_eq j held ≡ ite (key_eq k j) 1 0 + count key_eq j rest

module _ {K V : Type 0} (key_eq : Discrete K) where
  IsWaiting-same :
      (m m' : ConflictManager K V) (id : ℕ) (ks : List K) (v : V)
      → get ℕ_discrete id m'.waitingmsgs ≡ get ℕ_discrete id m.waitingmsgs
      → SameKeys m.cells m'.cells
      → IsWaiting m id ks v
      → IsWaiting m' id ks v
  IsWaiting-same m m' id ks v e sk (msg, g, t) =
      (msg, e ∙ g, take_kv-keeps msg m.cells m'.cells sk ∙ t)

  Stored-same :
      (m m' : ConflictManager K V) (id : ℕ) (o : Option (List K × V))
      → get ℕ_discrete id m'.waitingmsgs ≡ get ℕ_discrete id m.waitingmsgs
      → SameKeys m.cells m'.cells
      → Stored key_eq m id o
      → Stored key_eq m' id o
  Stored-same m m' id o e sk =
      Stored-keeps key_eq m m' id o e (λ ks v. IsWaiting-same m m' id ks v e sk)

  handed-Accounts :
      (held rest : List K) (xs rs : List (List K × V)) (id : ℕ) (ks : List K) (v : V)
      (m m' : ConflictManager K V)
      → Accounts key_eq held xs rs m
      → IsWaiting m id ks v
      → m'.waitingmsgs ≡ remove ℕ_discrete id m.waitingmsgs
      → SameKeys m.cells m'.cells
      → Sound key_eq (λ j. count key_eq j (ks ++ rest)) m'
      → Accounts key_eq (ks ++ rest) xs ((ks, v) ∷ rs) m'
  handed-Accounts held rest xs rs id ks v m m' a w gone sk s =
      let at : get ℕ_discrete id a.waits ≡ some (ks, v) =
        get-waiting key_eq m id ks v (get ℕ_discrete id a.waits) (a.stored id) w in
      record {
        sound = s;
        waits = remove ℕ_discrete id a.waits;
        unique = remove-Unique id a.waits a.unique;
        stored = λ i. elim (ℕ_discrete id i) [
          | yes p ↦
              subst (Stored key_eq m' i)
                (sym (get-remove ℕ_discrete id i a.waits ∙ ite-yes (ℕ_discrete id i) _ _ p))
                (ap (get ℕ_discrete i) gone
                  ∙ get-remove ℕ_discrete id i m.waitingmsgs
                  ∙ ite-yes (ℕ_discrete id i) _ _ p)
          | no n ↦
              subst (Stored key_eq m' i)
                (sym (get-remove ℕ_discrete id i a.waits ∙ ite-no (ℕ_discrete id i) _ _ n))
                (Stored-same m m' i (get ℕ_discrete i a.waits)
                  (ap (get ℕ_discrete i) gone
                    ∙ get-remove ℕ_discrete id i m.waitingmsgs
                    ∙ ite-no (ℕ_discrete id i) _ _ n)
                  sk (a.stored i))
        ];
        all = Perm.trans a.all (
            Perm.trans (Perm.append_left rs (remove-perm id (ks, v) a.waits a.unique at))
              (perm_middle rs (values (remove ℕ_discrete id a.waits))));
      }

  freed-Accounts :
      (held rest : List K) (xs rs : List (List K × V)) (m m' : ConflictManager K V)
      → Accounts key_eq held xs rs m
      → m'.waitingmsgs ≡ m.waitingmsgs
      → SameKeys m.cells m'.cells
      → Sound key_eq (λ j. count key_eq j rest) m'
      → Accounts key_eq rest xs rs m'
  freed-Accounts held rest xs rs m m' a same sk s = record {
    sound = s;
    waits = a.waits;
    unique = a.unique;
    stored = λ i.
        Stored-same m m' i (get ℕ_discrete i a.waits) (ap (get ℕ_discrete i) same) sk (a.stored i);
    all = a.all;
  }

module _ {K V : Type 0} (key_eq : Discrete K) (hash_order : List ℕ → List ℕ)
    (lists_same : (id : ℕ) (ids : List ℕ) → contains id (hash_order ids) ≡ contains id ids) where
  -- The accounts after a release.
  pub release-Accounts :
      (k : K) (held rest : List K) (xs rs : List (List K × V)) (m m' : ConflictManager K V)
      (r : Option (List K × V))
      → IsLess key_eq k held rest
      → unuse_key key_eq hash_order k m ≡ ok (r, m')
      → Accounts key_eq held xs rs m
      → Accounts key_eq (keys_taken key_eq r ++ rest) xs (to_list r ++ rs) m'
  release-Accounts k held rest xs rs m m' r less h a =
      let s0 = Sound-held key_eq _ _ less a.sound in
      let s1 : Sound key_eq (λ j. count key_eq j (keys_taken key_eq r ++ rest)) m' =
        Sound-held key_eq _ _ (λ j. sym (count-append key_eq j (keys_taken key_eq r) rest))
          (unuse_key-Sound key_eq hash_order (λ id ids c. sym (lists_same id ids) ∙ c)
            (λ j. count key_eq j rest) k m m' r h s0) in
      let (o, sk) =
        unuse_key-Settles key_eq hash_order lists_same (λ j. count key_eq j rest) k m m' r s0 h in
      elim o [
        | inl (id, ks, v, e, l, w, gone) ↦
            subst (λ x. Accounts key_eq (keys_taken key_eq x ++ rest) xs (to_list x ++ rs) m')
              (sym e)
              (handed-Accounts key_eq held rest xs rs id ks v m m' a w gone sk (
                subst (λ x. Sound key_eq (λ j. count key_eq j (keys_taken key_eq x ++ rest)) m') e
                  s1))
        | inr (e, same, b) ↦
            subst (λ x. Accounts key_eq (keys_taken key_eq x ++ rest) xs (to_list x ++ rs) m')
              (sym e)
              (freed-Accounts key_eq held rest xs rs m m' a same sk (
                subst (λ x. Sound key_eq (λ j. count key_eq j (keys_taken key_eq x ++ rest)) m') e
                  s1))
      ]
