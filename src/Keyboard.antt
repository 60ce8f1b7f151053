-- ===== src/Keyboard.antt =====
-- src/keyboard/keyboard.c: waiting for a key on the event queue of src/whitelib/system/system.c.
-- Handlers push events while `keyboard_scan_key` waits: the events that arrive before each round of
-- the waiting loop are a parameter, and `running` stands for a wait that has not ended with them.
pub mod Scan
mod Examples
use white_os.Base.{
  ℕ, zero, suc, ◌+◌, ◌%◌, true, false, List, [], ◌∷◌, Option, none, some, ◌==◌, if◌then◌else◌,
  ◌>>=◌,
}
use white_os.Events.{
  SystemEvent, Events, system_push_event, system_fetch_event, system_pop_event, system_has_events,
  sys_event_keyboard,
}
use white_os.Path.{Run, ret, fault, running, access, and_then}

-- The inner loop: it reads the queue until it is empty, with the count of keys and the result.
pub drain_loop : (fuel : ℕ) → Events → (state result : ℕ) → Run (Events × ℕ × ℕ)
drain_loop zero s state result = running
drain_loop (suc fuel) s state result =
    let again = drain_loop fuel in
    access (system_has_events s) λ more. elim more [
      | false ↦ ret (s, state, result)
      | true ↦ access (system_fetch_event s) λ e. access (system_pop_event s) λ s'.
          if e.kind == sys_event_keyboard
          then again s' (state + 1) (if state == 0 then e.val % 256 else result)
          else again s' state result
    ]

-- The pushes of the handlers.
pub arrive : List SystemEvent → Events → Option Events
arrive [] s = some s
arrive (e ∷ es) s = do s' ← system_push_event s e.kind e.val; arrive es s'

-- `fuel` bounds the rounds of the inner loop in each round of the outer one.
unfoldable pub keyboard_scan_key : (fuel : ℕ) → List (List SystemEvent) → Events → Run (ℕ × Events)
unfolding drain_loop arrive
keyboard_scan_key fuel [] s = running
keyboard_scan_key fuel (batch ∷ arriving) s =
    let rest = keyboard_scan_key fuel arriving in
    access (arrive batch s) λ s'.
      and_then (drain_loop fuel s' 0 0)
        λ (s'', state, result). if state == 0 then rest s'' else ret (result, s'')
