-- ===== src/KvMpscMultik/Conflict.antt =====
-- kv_mpsc_multik.rs: `ConflictManager` with its key states and waiting messages. Key states are
-- shared: a waiting message and `keys_states` hold references into one store of cells.
use mathlib.Core.List.{reverse}
use mathlib.Core.Logic.{ite}
use pa_queue_and_chan.Prelude.{
  ℕ, ◌^◌, Bool, true, false, not, Option, none, some, List, [], ◌∷◌, ◌++◌, Map, get, Outcome, ok,
  panic, ◌>>=◌, ◌>>◌, assert, unwrap, if◌then◌else◌, ℕ_discrete, contains, without, ◌||◌,
}

-- `WaitingMsgId=i32`: its upper bound, for the check on overflow.
abbrev pub id_bound : ℕ
id_bound = 2 ^ 31

pub record KeyStateInner (K : Type 0) : Type 0 where
  pub k : Option K
  pub using : Bool
  -- the ids of `waitingmsgs`; the weak reference of an id is to the message with that id
  pub waitingmsgs : List ℕ

pub record WaitingMsg (V : Type 0) : Type 0 where
  pub ks_v : Option (List ℕ × V)
  pub id : ℕ

pub record ConflictManager (K V : Type 0) : Type 0 where
  -- the only lasting owner of a waiting message: a weak reference to it upgrades while it is here
  pub waitingmsgs : Map ℕ (WaitingMsg V)
  pub keys_states : Map K ℕ
  pub next_waitingmsg_id : ℕ
  -- the store of the `Rc<RefCell<KeyStateInner>>`, and the next free place in it
  pub cells : ℕ → KeyStateInner K
  pub next_cell : ℕ

abbrev pub update {ℓ} : {A : Type ℓ} → (ℕ → A) → ℕ → A → ℕ → A
update f i a j = ite (ℕ_discrete i j) a (f j)

-- `WaitingMsg::add_kstate`
unfoldable pub add_kstate : {V : Type 0} → ℕ → WaitingMsg V → Outcome (WaitingMsg V)
add_kstate r m = elim m.ks_v [
  | none ↦ panic
  | some (ks, v) ↦ ok (record m { ks_v = some (ks ++ r ∷ [], v) })
]

module _ {K : Type 0} where
  -- The `while let Some(k) =kstates.pop()` of `take_kv`, over the references from the last on.
  unfoldable pub take_keys : (ℕ → KeyStateInner K) → List ℕ → Outcome (List K)
  take_keys cells [] = ok []
  take_keys cells (r ∷ rs) = do k ← unwrap (cells r).k; ks ← take_keys cells rs; ok (k ∷ ks)

  -- `WaitingMsg::take_kv`; the emptied message is dropped by its caller.
  unfoldable pub take_kv :
      {V : Type 0} → (ℕ → KeyStateInner K) → WaitingMsg V → Outcome (List K × V)
  unfolding take_keys
  take_kv cells m = elim m.ks_v [
    | none ↦ panic
    | some (kstates, v) ↦ take_keys cells (reverse kstates) >>= λ ks. ok (ks, v)
  ]

  -- `KeyStateShared::new`
  unfoldable pub new_state : K → KeyStateInner K
  new_state k = record { k = some k; using = false; waitingmsgs = [] }

  -- `add_waitingmsg`, given what the weak reference upgrades to
  unfoldable pub add_waitingmsg :
      {V : Type 0}
      → ℕ
      → Option (WaitingMsg V)
      → (ℕ → KeyStateInner K)
      → Outcome (ℕ → KeyStateInner K)
  add_waitingmsg r none cells = panic
  add_waitingmsg r (some b) cells = ok (
      update cells r (record (cells r) { waitingmsgs = b.id ∷ without b.id (cells r).waitingmsgs }))

  unfoldable pub remove_waitingmsg : ℕ → ℕ → (ℕ → KeyStateInner K) → Outcome (ℕ → KeyStateInner K)
  remove_waitingmsg r id cells = do
    assert (contains id (cells r).waitingmsgs)
    ok (update cells r (record (cells r) { waitingmsgs = without id (cells r).waitingmsgs }))

  unfoldable pub set_use : ℕ → (ℕ → KeyStateInner K) → Outcome (ℕ → KeyStateInner K)
  set_use r cells = do
    assert (not (cells r).using)
    ok (update cells r (record (cells r) { using = true }))

  unfoldable pub set_unuse : ℕ → (ℕ → KeyStateInner K) → Outcome (ℕ → KeyStateInner K)
  set_unuse r cells = do
    assert (cells r).using
    ok (update cells r (record (cells r) { using = false }))

  -- `try_set_use`: the state that is being searched is borrowed, so it is passed over.
  unfoldable pub try_set_use : ℕ → ℕ → (ℕ → KeyStateInner K) → Outcome (ℕ → KeyStateInner K)
  unfolding set_use
  try_set_use searched r cells = ite (ℕ_discrete searched r) (ok cells) (set_use r cells)

  -- `for k in &ks_v.0 { if k.using() ..}`
  unfoldable pub any_using : List ℕ → (ℕ → KeyStateInner K) → Bool
  any_using [] cells = false
  any_using (r ∷ rs) cells = (cells r).using || any_using rs cells

  unfoldable pub try_set_all : ℕ → List ℕ → (ℕ → KeyStateInner K) → Outcome (ℕ → KeyStateInner K)
  unfolding try_set_use
  try_set_all searched [] cells = ok cells
  try_set_all searched (r ∷ rs) cells = do
    cells' ← try_set_use searched r cells
    try_set_all searched rs cells'

  -- The loop `'outer` of `try_get_stop_waiting_msg`, over the ids in the map's order.
  unfoldable pub find_msg :
      {V : Type 0}
      → ℕ
      → Map ℕ (WaitingMsg V)
      → List ℕ
      → (ℕ → KeyStateInner K)
      → Outcome (Option ℕ × (ℕ → KeyStateInner K))
  unfolding any_using try_set_all
  find_msg searched msgs [] cells = ok (none, cells)
  find_msg searched msgs (id ∷ ids) cells = do
    msg ← unwrap (get ℕ_discrete id msgs)
    ks_v ← unwrap msg.ks_v
    if any_using ks_v.0 cells
        then find_msg searched msgs ids cells
        else (try_set_all searched ks_v.0 cells >>= λ cells'. ok (some id, cells'))
