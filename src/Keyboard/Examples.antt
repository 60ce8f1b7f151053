-- ===== src/Keyboard/Examples.antt =====
-- Waiting for a key: an empty round, then another event and two keys in one round.
use white_os.Base.{ℕ, zero, suc, ◌+◌, ◌%◌, ◌≡◌, refl, List, [], ◌∷◌, arith, get_or, replicate}
use white_os.Path.{ret}
use white_os.Events.{SystemEvent, Events}
use white_os.Events.Queue.{no_event, kind_of, IsQueue}
use white_os.Keyboard.{keyboard_scan_key}
use white_os.Keyboard.Scan.{keyboard_scan_key-Answers}

abbrev blank : Events
blank = record { events = replicate 100 no_event; head = 0; tail = 0 }

blank_kind : (n k : ℕ) → kind_of (get_or (replicate n no_event) k no_event) ≡ 0
blank_kind zero k = refl
blank_kind (suc n) zero = refl
blank_kind (suc n) (suc k) = blank_kind n k

blank-IsQueue : IsQueue blank []
blank-IsQueue = record {
  reads = record {
    size = refl;
    head_in = omega arith;
    room = omega arith;
    stored = λ k h. absurd (omega arith);
    empty = λ k l u. blank_kind 100 ((0 + k) % 100);
    live = λ k h. absurd (omega arith);
  };
  tail_at = refl;
}

abbrev event : (kind val : ℕ) → SystemEvent
event kind val = record { kind = kind; val = val }

abbrev batches : List (List SystemEvent)
batches = [] ∷ (event 2 7 ∷ event 1 30 ∷ event 1 31 ∷ []) ∷ []

keyboard_scan_key-Answers_example :
    (s : Events) × IsQueue s [] × (keyboard_scan_key 101 batches blank ≡ ret (30, s))
keyboard_scan_key-Answers_example =
    keyboard_scan_key-Answers 101 batches blank (omega arith) blank-IsQueue
      ((omega arith, tt), ((omega arith, (omega arith, (omega arith, (omega arith, tt)))), tt))
