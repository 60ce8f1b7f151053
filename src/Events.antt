-- ===== src/Events.antt =====
-- src/whitelib/system/system.c: the queue of system events, a ring of 100 slots. A slot of type 0
-- is empty. `head` and `tail` index the array; a read or a write outside it is `none`.
pub mod Queue
mod Examples
use white_os.Base.{
  ℕ, zero, suc, ◌+◌, ◌%◌, Bool, not, List, [], ◌∷◌, Option, none, some, ◌==◌, if◌then◌else◌,
  get_elem?, get_or, set, store, ◌>>=◌,
}

-- EVENTS_SIZE
abbrev pub events_size : ℕ
events_size = 100

-- SYS_EVENT_KEYBOARD
abbrev pub sys_event_keyboard : ℕ
sys_event_keyboard = 1

-- `struct system_event`; `kind` is its `type`.
pub record SystemEvent : Type 0 where
  pub kind : ℕ
  pub val : ℕ

pub record Events : Type 0 where
  pub events : List SystemEvent
  pub head : ℕ
  pub tail : ℕ

clear_loop : ℕ → ℕ → List SystemEvent → Option (List SystemEvent)
clear_loop zero i events = some events
clear_loop (suc left) i events = do
  e ← get_elem? events i
  events' ← store events i (record e { kind = 0 })
  clear_loop left (i + 1) events'

unfoldable pub system_events_init : Events → Option Events
unfolding clear_loop
system_events_init s = do
  events ← clear_loop events_size 0 s.events
  some (record { events = events; head = 0; tail = 0 })

unfoldable pub system_push_event : Events → ℕ → ℕ → Option Events
system_push_event s kind val = do
  events ← store s.events s.tail (record { kind = kind; val = val })
  some (record s { events = events; tail = (s.tail + 1) % events_size })

unfoldable pub system_fetch_event : Events → Option SystemEvent
system_fetch_event s = get_elem? s.events s.head

unfoldable pub system_pop_event : Events → Option Events
system_pop_event s = do
  event ← get_elem? s.events s.head
  events ← store s.events s.head (record event { kind = 0 })
  some (record s { events = events; head = (s.head + 1) % events_size })

unfoldable pub system_has_events : Events → Option Bool
system_has_events s = do event ← get_elem? s.events s.head; some (not (event.kind == 0))
