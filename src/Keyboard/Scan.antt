-- ===== src/Keyboard/Scan.antt =====
-- `keyboard_scan_key` against the sequence of the events that arrive.
use white_os.Base.{
  ℕ, zero, suc, ◌+◌, ◌%◌, ◌≤◌, ◌<◌, ◌≡◌, refl, sym, ap, ◌∙◌, subst, ◌≢◌, ◌⊎◌, inl, inr, false,
  Option, none, some, List, [], ◌∷◌, ◌++◌, append-nil, arith, ℕ_discrete, ◌==◌, if◌then◌else◌,
  Bool-cases, length, snoc-append, length-snoc,
}
use white_os.Events.{SystemEvent, Events, sys_event_keyboard, system_push_event, system_pop_event}
use white_os.Events.Queue.{
  IsQueue, Holds, system_push_event-Holds, system_pop_event-Holds, system_has_events-nil,
}
use white_os.Path.{Run, ret, running}
use white_os.Keyboard.{drain_loop, arrive, keyboard_scan_key}

-- The value of the first key event, in a byte.
abbrev pub first_key : List SystemEvent → Option ℕ
first_key [] = none
first_key (e ∷ es) = if e.kind == sys_event_keyboard then some (e.val % 256) else first_key es

abbrev pub concat : List (List SystemEvent) → List SystemEvent
concat [] = []
concat (b ∷ bs) = b ++ concat bs

abbrev pub All : {A : Type 0} → (A → Type 0) → List A → Type 0
All P [] = Unit
All P (x ∷ xs) = P x × All P xs

-- The count of keys and the result after the events of a queue.
abbrev count : List SystemEvent → (state result : ℕ) → ℕ × ℕ
count [] state result = (state, result)
count (e ∷ es) state result =
    if e.kind == sys_event_keyboard
    then count es (state + 1) (if state == 0 then e.val % 256 else result)
    else count es state result

taken :
    {q : List SystemEvent} (o : Option Events)
    → Holds q o
    → (s : Events) × (o ≡ some s) × IsQueue s q
taken none h = absurd h
taken (some s) h = (s, refl, h)

drain_loop_lem :
    (fuel : ℕ) (s : Events) (q : List SystemEvent) (state result : ℕ)
    → IsQueue s q
    → length q < fuel
    → (s' : Events) × IsQueue s' []
      × (drain_loop fuel s state result
          ≡ ret (s', (count q state result).0, (count q state result).1))
unfolding drain_loop
drain_loop_lem zero s q state result v h = absurd (omega arith)
drain_loop_lem (suc fuel) s [] state result v h = (s, v, rw (system_has_events-nil v) refl)
drain_loop_lem (suc fuel) s (e ∷ q) state result v h =
    let (more, front, popped) = system_pop_event-Holds v in
    let (s1, p, v1) = taken (system_pop_event s) popped in
    elim (ℕ_discrete e.kind 1) [
      | yes k ↦
          let (s2, v2, r) =
            drain_loop_lem fuel s1 q (state + 1) (if state == 0 then e.val % 256 else result) v1
              (omega arith) in
          (s2, v2, rw (more, front, p, k) r)
      | no k ↦
          let (s2, v2, r) = drain_loop_lem fuel s1 q state result v1 (omega arith) in
          (s2, v2, rw (more, front, p, other e.kind k) r)
    ]
  where
    other : (n : ℕ) → n ≢ 1 → (n == 1) ≡ false
    other n k = ground arith

-- What the counting finds.
count-seen :
    (q : List SystemEvent) (state result : ℕ)
    → (n : ℕ) × (count q (suc state) result ≡ (suc n, result))
count-seen [] state result = (state, refl)
count-seen (e ∷ q) state result = elim (Bool-cases (e.kind == 1)) [
  | inl k ↦
      let (n, r) = count-seen q (suc state) result in
      (n, rw (k, positive) (ap (λ i. count q i result) next ∙ r))
  | inr k ↦ let (n, r) = count-seen q state result in (n, rw k r)
]
  where
    positive : (suc state == 0) ≡ false
    positive = ground arith

    next : suc state + 1 ≡ suc (suc state)
    next = omega arith

-- The answer of the loops, given the first key.
abbrev pub Answers : Option ℕ → Run (ℕ × Events) → Type 0
Answers none r = r ≡ running
Answers (some val) r = (s : Events) × IsQueue s [] × (r ≡ ret (val, s))

-- The first key of two sequences.
abbrev or_first : Option ℕ → Option ℕ → Option ℕ
or_first none o = o
or_first (some v) o = some v

first_key-append :
    (xs ys : List SystemEvent) → first_key (xs ++ ys) ≡ or_first (first_key xs) (first_key ys)
first_key-append [] ys = refl
first_key-append (e ∷ xs) ys = elim (Bool-cases (e.kind == 1)) [
  | inl k ↦ rw k refl
  | inr k ↦ rw k (first_key-append xs ys)
]

count-first_key :
    (q : List SystemEvent)
    → ((first_key q ≡ none) × (count q 0 0 ≡ (0, 0)))
      ⊎ ((v : ℕ) × (n : ℕ) × (first_key q ≡ some v) × (count q 0 0 ≡ (suc n, v)))
count-first_key [] = inl (refl, refl)
count-first_key (e ∷ q) = elim (Bool-cases (e.kind == 1)) [
  | inl k ↦ let (n, r) = count-seen q 0 (e.val % 256) in inr (e.val % 256, n, rw k refl, rw k r)
  | inr k ↦ rw k (count-first_key q)
]

-- A batch of events that fits into the ring.
abbrev pub Fits : List SystemEvent → Type 0
Fits batch = (length batch ≤ 100) × All (λ e. e.kind ≢ 0) batch

arrive_lem :
    (batch : List SystemEvent) (s : Events) (q : List SystemEvent)
    → IsQueue s q
    → length q + length batch ≤ 100
    → All (λ e. e.kind ≢ 0) batch
    → (s' : Events) × (arrive batch s ≡ some s') × IsQueue s' (q ++ batch)
unfolding arrive
arrive_lem [] s q v h a = (s, refl, rw (append-nil q) v)
arrive_lem (e ∷ batch) s q v h a =
    let (s1, p, v1) =
      taken (system_push_event s e.kind e.val)
        (system_push_event-Holds e.kind e.val v a.0 (omega arith)) in
    let (s2, p2, v2) = arrive_lem batch s1 (q ++ e ∷ []) v1 (omega (arith, length-snoc q e)) a.1 in
    (s2, rw p p2, rw (← snoc-append q e batch) v2)

after :
    (b : List SystemEvent) (s : Events) (rest : Run (ℕ × Events)) (o : Option ℕ)
    → IsQueue s []
    → Answers o rest
    → Answers
        (or_first (first_key b) o)
        (if (count b 0 0).0 == 0 then rest else ret ((count b 0 0).1, s))
after b s rest o v h = elim (count-first_key b) [
  | inl (f, c) ↦ rw (f, c) h
  | inr (val, n, f, c) ↦ rw (f, c, positive n) (s, v, refl)
]
  where
    positive : (n : ℕ) → (suc n == 0) ≡ false
    positive n = ground arith

-- Started with an empty queue, `keyboard_scan_key` returns the first key of all the events that
-- arrive, with an empty queue, in whatever batches of up to 100 events they arrive; later keys do not
-- replace it. Without a key it keeps waiting. 101 rounds of the inner loop are enough.
pub keyboard_scan_key-Answers :
    (fuel : ℕ) (batches : List (List SystemEvent)) (s : Events)
    → 100 < fuel
    → IsQueue s []
    → All Fits batches
    → Answers (first_key (concat batches)) (keyboard_scan_key fuel batches s)
unfolding keyboard_scan_key
keyboard_scan_key-Answers fuel [] s g v a = refl
keyboard_scan_key-Answers fuel (b ∷ bs) s g v a =
    let (s1, p, v1) = arrive_lem b s [] v (omega (arith, a.0.0)) a.0.1 in
    let (s2, v2, r) = drain_loop_lem fuel s1 b 0 0 v1 (omega (arith, a.0.0)) in
    subst (λ o. Answers o (keyboard_scan_key fuel (b ∷ bs) s))
      (sym (first_key-append b (concat bs)))
      (rw (p, r)
        (after b s2 (keyboard_scan_key fuel bs s2) (first_key (concat bs)) v2
          (keyboard_scan_key-Answers fuel bs s2 g v2 a.1)))
