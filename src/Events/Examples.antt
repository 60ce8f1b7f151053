-- ===== src/Events/Examples.antt =====
-- The event queue at concrete rings.
use white_os.Base.{
  ℕ, zero, suc, ◌+◌, ◌%◌, ◌<◌, ◌≡◌, refl, sym, ap, ◌∙◌, true, some, [], ◌∷◌, arith, get_or,
  replicate,
}
use white_os.Base.Ring.{Reads}
use white_os.Events.{
  SystemEvent, Events, system_push_event, system_fetch_event, system_pop_event, system_has_events,
}
use white_os.Events.Queue.{
  no_event, kind_of, IsQueue, Holds, system_push_event-Holds, system_pop_event-Holds,
  system_push_event-full,
}

abbrev key : ℕ → SystemEvent
key val = record { kind = 1; val = val }

abbrev blank : Events
blank = record { events = replicate 100 no_event; head = 0; tail = 0 }

blank_kind : (n k : ℕ) → kind_of (get_or (replicate n no_event) k no_event) ≡ 0
blank_kind zero k = refl
blank_kind (suc n) zero = refl
blank_kind (suc n) (suc k) = blank_kind n k

blank-IsQueue : IsQueue blank []
blank-IsQueue = record {
  reads = record {
    size = refl;
    head_in = omega arith;
    room = omega arith;
    stored = λ k h. absurd (omega arith);
    empty = λ k l u. blank_kind 100 ((0 + k) % 100);
    live = λ k h. absurd (omega arith);
  };
  tail_at = refl;
}

-- a ring with one key waiting
abbrev one_key : Events
one_key = record { events = key 30 ∷ replicate 99 no_event; head = 0; tail = 1 }

one_key-IsQueue : IsQueue one_key (key 30 ∷ [])
unfolding system_push_event
one_key-IsQueue = system_push_event-Holds 1 30 blank-IsQueue (omega arith) (omega arith)

-- a ring of 100 keys
abbrev full : Events
full = record { events = replicate 100 (key 30); head = 0; tail = 0 }

full_stored : (n k : ℕ) → k < n → get_or (replicate n (key 30)) k no_event ≡ key 30
full_stored zero k h = absurd (omega arith)
full_stored (suc n) zero h = refl
full_stored (suc n) (suc k) h = full_stored n k (omega arith)

full-IsQueue : IsQueue full (key 30 ∷ replicate 99 (key 30))
full-IsQueue = record {
  reads = record {
    size = refl;
    head_in = omega arith;
    room = omega arith;
    stored = λ k h. full_stored 100 ((0 + k) % 100) (omega arith) ∙ sym (full_stored 100 k h);
    empty = λ k l u. absurd (omega arith);
    live = λ k h e. absurd (omega (arith, ap kind_of (full_stored 100 k h)));
  };
  tail_at = refl;
}

system_push_event-Holds_example : Holds (key 30 ∷ key 31 ∷ []) (system_push_event one_key 1 31)
system_push_event-Holds_example =
    system_push_event-Holds 1 31 one_key-IsQueue (omega arith) (omega arith)

system_pop_event-Holds_example :
    (system_has_events one_key ≡ some true)
    × (system_fetch_event one_key ≡ some (key 30))
    × Holds [] (system_pop_event one_key)
system_pop_event-Holds_example = system_pop_event-Holds one_key-IsQueue

system_push_event-full_example :
    (s' : Events) × (system_push_event full 1 31 ≡ some s')
    × Reads kind_of no_event s'.events s'.head (key 31 ∷ replicate 99 (key 30))
system_push_event-full_example = system_push_event-full 1 31 full-IsQueue (omega arith) refl
