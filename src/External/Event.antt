-- ===== src/External/Event.antt =====
-- event_listener::Event, as used by one receiver: at most one listener at a time.
use pa_queue_and_chan.Prelude.{ℕ, ◌≡◌, ◌<◌, refl, Bool, true, false, Option, none, some, is_some}

-- `wait l e` is the event after `l.wait()` has returned, which it does once `notified e l` holds.
pub record Events : Type 1 where
  pub Event : Type 0
  pub EventListener : Type 0
  pub new : Event
  pub listen : Event → EventListener × Event
  pub notify : ℕ → Event → Event
  pub notified : Event → EventListener → Bool
  pub wait : EventListener → Event → Event
  -- no listener is registered; the given one is, and no other
  pub IsFree : Event → Type 0
  pub IsSole : Event → EventListener → Type 0
  pub new-IsFree : IsFree new
  pub listen-IsSole : (e : Event) → IsFree e → IsSole (listen e).1 (listen e).0
  pub notified-listen : (e : Event) → notified (listen e).1 (listen e).0 ≡ false
  pub notify-IsFree : (n : ℕ) (e : Event) → IsFree e → IsFree (notify n e)
  pub notify-IsSole : (n : ℕ) (e : Event) (l : EventListener) → IsSole e l → IsSole (notify n e) l
  pub notified-notify :
      (n : ℕ) (e : Event) (l : EventListener) → 0 < n → IsSole e l → notified (notify n e) l ≡ true
  pub wait-IsFree : (l : EventListener) (e : Event) → IsSole e l → IsFree (wait l e)

abbrev pub option_notify : ℕ → Option Bool → Option Bool
option_notify n none = none
option_notify n (some b) = some true

pub option_notify-none : (n : ℕ) (e : Option Bool) → e ≡ none → option_notify n e ≡ none
option_notify-none n e h = rw h

pub option_notify-some :
    (n : ℕ) (e : Option Bool) → is_some e ≡ true → is_some (option_notify n e) ≡ true
option_notify-some n none h = h
option_notify-some n (some b) h = refl

abbrev pub is_notified : Option Bool → Bool
is_notified none = false
is_notified (some b) = b

pub is_notified-notify :
    (n : ℕ) (e : Option Bool) → is_some e ≡ true → is_notified (option_notify n e) ≡ true
is_notified-notify n none h = h
is_notified-notify n (some b) h = refl

-- The laws can be met: an event is its only listener's flag, if there is a listener.
abbrev pub option_events : Events
option_events = record {
  Event = Option Bool;
  EventListener = Unit {0};
  new = none;
  listen = λ e. (tt, some false);
  notify = option_notify;
  notified = λ e l. is_notified e;
  wait = λ l e. none;
  IsFree = λ e. e ≡ none;
  IsSole = λ e l. is_some e ≡ true;
  new-IsFree = refl;
  listen-IsSole = λ e h. refl;
  notified-listen = λ e. refl;
  notify-IsFree = option_notify-none;
  notify-IsSole = λ n e l h. option_notify-some n e h;
  notified-notify = λ n e l p h. is_notified-notify n e h;
  wait-IsFree = λ l e h. refl;
}
