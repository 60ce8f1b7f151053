-- ===== src/Events/Queue.antt =====
-- The event queue as a queue of at most 100 events.
use white_os.Base.{
  ℕ, zero, suc, ◌+◌, ◌%◌, ◌<◌, ◌≡◌, refl, ap, ◌∙◌, ◌≢◌, true, false, Option, none, some, List, [],
  ◌∷◌, ◌++◌, map, arith, length, get_elem?, set, get_or, length-map, store, store-append,
  store_of_lt, get_elem?-append, snoc-append, length-snoc, get_elem?-eq-get_or,
}
use white_os.Base.Ring.{Reads, IsRing, Reads-front, Reads-nil, Reads-pop, Reads-push, Reads-full}
use white_os.Events.{
  SystemEvent, Events, system_events_init, system_push_event, system_fetch_event, system_pop_event,
  system_has_events, clear_loop,
}

abbrev pub no_event : SystemEvent
no_event = record { kind = 0; val = 0 }

abbrev pub kind_of : SystemEvent → ℕ
kind_of e = e.kind

-- The ring holds the events of `q`, oldest first.
abbrev pub IsQueue : Events → List SystemEvent → Type 0
IsQueue s q = IsRing kind_of no_event s.events s.head s.tail q

-- A call that succeeds with a ring that holds `q`.
abbrev pub Holds : List SystemEvent → Option Events → Type 0
Holds q none = ⊥
Holds q (some s) = IsQueue s q

-- A slot that is in range is read.
fetched :
    {s : Events} {q : List SystemEvent}
    → IsQueue s q
    → get_elem? s.events s.head ≡ some (get_or s.events s.head no_event)
fetched {s} v =
    get_elem?-eq-get_or s.events s.head no_event (omega (arith, v.reads.size, v.reads.head_in))

stored_at :
    {s : Events} {q : List SystemEvent} (e : SystemEvent)
    → IsQueue s q
    → store s.events s.tail e ≡ some (set s.events ((s.head + length q) % 100) e)
stored_at {s} {q} e v =
    rw v.tail_at (store_of_lt s.events ((s.head + length q) % 100) e (omega (arith, v.reads.size)))

-- An event pushed while fewer than 100 wait goes to the end of the queue.
pub system_push_event-Holds :
    {s : Events} {q : List SystemEvent} (kind val : ℕ)
    → IsQueue s q
    → kind ≢ 0
    → length q < 100
    → Holds (q ++ record { kind = kind; val = val } ∷ []) (system_push_event s kind val)
unfolding system_push_event
system_push_event-Holds {s} {q} kind val v ne h =
    let new : SystemEvent = record { kind = kind; val = val } in
    rw (stored_at new v) (record {
      reads = Reads-push kind_of no_event new ne h v.reads;
      tail_at = omega (arith, length-snoc q new, v.tail_at);
    })

-- With an event waiting, `system_has_events` says so, `system_fetch_event` shows the oldest and
-- `system_pop_event` takes it.
pub system_pop_event-Holds :
    {s : Events} {e : SystemEvent} {q : List SystemEvent}
    → IsQueue s (e ∷ q)
    → (system_has_events s ≡ some true)
      × (system_fetch_event s ≡ some e)
      × Holds q (system_pop_event s)
unfolding system_pop_event system_fetch_event system_has_events
system_pop_event-Holds {s} {e} {q} v =
    let front = fetched v ∙ ap some (Reads-front kind_of no_event v.reads) in
    (
      rw front (ground (arith, v.reads.live 0 (omega arith))),
      front,
      rw
          (
            front,
            store_of_lt s.events s.head (record e { kind = 0 })
                (omega (arith, v.reads.size, v.reads.head_in)),
          )
          (record {
            reads = Reads-pop kind_of no_event (record e { kind = 0 }) refl v.reads;
            tail_at = omega (arith, v.tail_at);
          }),
    )

-- On an empty queue `system_has_events` says so.
pub system_has_events-nil : {s : Events} → IsQueue s [] → system_has_events s ≡ some false
unfolding system_has_events
system_has_events-nil {s} v = rw (fetched v) (ground (arith, Reads-nil kind_of no_event v.reads))

-- What a full ring of 100 events becomes under a push: the pushed event is read first, before the
-- older ones, and the oldest is gone.
pub system_push_event-full :
    {s : Events} {e : SystemEvent} {q : List SystemEvent} (kind val : ℕ)
    → IsQueue s (e ∷ q)
    → kind ≢ 0
    → length (e ∷ q) ≡ 100
    → (s' : Events) × (system_push_event s kind val ≡ some s')
      × Reads kind_of no_event s'.events s'.head (record { kind = kind; val = val } ∷ q)
unfolding system_push_event
system_push_event-full {s} {e} {q} kind val v ne h =
    let new : SystemEvent = record { kind = kind; val = val } in
    (
      record {
        events = set s.events ((s.head + length (e ∷ q)) % 100) new;
        head = s.head;
        tail = (s.tail + 1) % 100;
      },
      rw (stored_at new v) refl,
      Reads-full kind_of no_event new ne h v.reads,
    )

abbrev cleared : SystemEvent → SystemEvent
cleared e = record e { kind = 0 }

clear_loop-append :
    (left i : ℕ) (pre rest : List SystemEvent)
    → length pre ≡ i
    → length rest ≡ left
    → clear_loop left i (pre ++ rest) ≡ some (pre ++ map cleared rest)
unfolding clear_loop
clear_loop-append zero i pre [] e h = refl
clear_loop-append zero i pre (x ∷ rest) e h = absurd (omega arith)
clear_loop-append (suc left) i pre [] e h = absurd (omega arith)
clear_loop-append (suc left) i pre (x ∷ rest) e h =
    rw (get_elem?-append pre x rest i e, store-append pre x rest (cleared x) i e)
      (rw (← snoc-append pre (cleared x) rest) (
        clear_loop-append left (i + 1) (pre ++ cleared x ∷ []) rest
          (omega (arith, length-snoc pre (cleared x))) (omega arith)
        ∙ ap some (snoc-append pre (cleared x) (map cleared rest))))

kind_map-cleared :
    (xs : List SystemEvent) (k : ℕ) → kind_of (get_or (map cleared xs) k no_event) ≡ 0
kind_map-cleared [] k = refl
kind_map-cleared (x ∷ xs) zero = refl
kind_map-cleared (x ∷ xs) (suc k) = kind_map-cleared xs k

-- `system_events_init` empties the queue, whatever the array held.
pub system_events_init-Holds :
    (s : Events) → length s.events ≡ 100 → Holds [] (system_events_init s)
unfolding system_events_init
system_events_init-Holds s e = rw (clear_loop-append 100 0 [] s.events refl e) (record {
  reads = record {
    size = length-map s.events cleared ∙ e;
    head_in = omega arith;
    room = omega arith;
    stored = λ k h. absurd (omega arith);
    empty = λ k l u. kind_map-cleared s.events ((0 + k) % 100);
    live = λ k h. absurd (omega arith);
  };
  tail_at = omega arith;
})
