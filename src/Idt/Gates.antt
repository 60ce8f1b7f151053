-- ===== src/Idt/Gates.antt =====
-- The gates that `idt_init` sets up.
use white_os.Base.{
  ℕ, zero, suc, ◌+◌, ◌*◌, ◌/◌, ◌%◌, ◌^◌, ◌≤◌, ◌<◌, ◌≡◌, refl, sym, ap, ◌∙◌, subst, ◌≢◌, inl, inr,
  false, Option, some, List, [], ◌∷◌, ◌++◌, arith, ℕ_discrete, ltb, ◌==◌, if◌then◌else◌, lt→ltb,
  Bool-cases, length, get_elem?, set, get_or, replicate, length-set, get_elem?-set_self,
  get_elem?-set_ne, store-append, store_of_lt, snoc-append, length-snoc, get_elem?-eq-get_or,
}
use white_os.Idt.{
  IdtEntry, Idt, Handlers, init_idt_entry, idt_set_handler, set_handlers, idt_init,
  clear_exceptions,
}

-- The arrays have their sizes.
pub record IsIdt (s : Idt) : Type 0 where
  pub table_size : length s.idt_table ≡ 512
  pub handlers_size : length s.idt_handlers ≡ 512
  pub exceptions_size : length s.exception_table ≡ 100

-- The address that the processor reads from a gate.
abbrev pub gate_address : IdtEntry → ℕ
gate_address e = e.offset_higherbits * 65536 + e.offset_lowerbits

-- The gate of interrupt `i` leads to `handler`, in the code segment, as a present interrupt gate.
abbrev pub LeadsTo : Idt → (i handler : ℕ) → Type 0
LeadsTo s i handler =
    (e : IdtEntry) × (get_elem? s.idt_table i ≡ some e)
    × (gate_address e ≡ handler)
    × (e.selector ≡ 8)
    × (e.flags ≡ 142)

abbrev gate : (handler flags : ℕ) → IdtEntry
gate handler flags = record {
  offset_lowerbits = handler % 65536;
  selector = 8;
  zero_byte = 0;
  flags = flags;
  offset_higherbits = handler / 65536 % 65536;
}

abbrev pub with_handler : Idt → (i handler flags : ℕ) → Idt
with_handler s i handler flags = record s {
  idt_table = set s.idt_table i (gate handler flags);
  idt_handlers = set s.idt_handlers i handler;
}

-- `idt_set_handler` in range.
idt_set_handler_lem :
    (s : Idt) (i handler flags : ℕ)
    → IsIdt s
    → i < 512
    → idt_set_handler s i handler flags ≡ some (with_handler s i handler flags)
unfolding idt_set_handler init_idt_entry
idt_set_handler_lem s i handler flags v h =
    rw
      (
        store_of_lt s.idt_handlers i handler (omega (arith, v.handlers_size)),
        get_elem?-set_self s.idt_handlers i handler (omega (arith, v.handlers_size)),
        store_of_lt s.idt_table i (gate handler flags) (omega (arith, v.table_size)),
      )
      refl

with_handler-IsIdt :
    (s : Idt) (i handler flags : ℕ) → IsIdt s → IsIdt (with_handler s i handler flags)
with_handler-IsIdt s i handler flags v = record {
  table_size = length-set s.idt_table i (gate handler flags) ∙ v.table_size;
  handlers_size = length-set s.idt_handlers i handler ∙ v.handlers_size;
  exceptions_size = v.exceptions_size;
}

-- The halves of an address make it up again.
LeadsTo-self :
    (s : Idt) (i handler : ℕ)
    → IsIdt s
    → i < 512
    → handler < 2 ^ 32
    → LeadsTo (with_handler s i handler 142) i handler
LeadsTo-self s i handler v h b = (
  gate handler 142,
  get_elem?-set_self s.idt_table i (gate handler 142) (omega (arith, v.table_size)),
  omega arith,
  refl,
  refl,
)

LeadsTo-other :
    (s : Idt) (i j handler h' : ℕ)
    → i ≢ j
    → LeadsTo s j h'
    → LeadsTo (with_handler s i handler 142) j h'
LeadsTo-other s i j handler h' n l =
    (l.0, get_elem?-set_ne s.idt_table (gate handler 142) n ∙ l.1, l.2, l.3, l.4)

-- After the loop from `i` on the gates below `i + left` lead to their handlers.
set_handlers_lem :
    (left i : ℕ) (handler : ℕ → Option ℕ) (target : ℕ → ℕ) (s : Idt)
    → IsIdt s
    → i + left ≤ 512
    → ((j : ℕ) → j < i + left → i ≤ j → handler j ≡ some (target j))
    → ((j : ℕ) → target j < 2 ^ 32)
    → ((j : ℕ) → j < i → LeadsTo s j (target j))
    → (s' : Idt) × (set_handlers left i handler s ≡ some s')
      × IsIdt s'
      × ((j : ℕ) → j < i + left → LeadsTo s' j (target j))
unfolding set_handlers
set_handlers_lem zero i handler target s v h g b l = (s, refl, v, λ j k. l j (omega arith))
set_handlers_lem (suc left) i handler target s v h g b l =
    let s1 = with_handler s i (target i) 142 in
    let (s', e, v', l') =
      set_handlers_lem left (i + 1) handler target s1 (with_handler-IsIdt s i (target i) 142 v)
        (omega arith) (λ j k m. g j (omega arith) (omega arith)) b kept in
    (
      s',
      rw (g i (omega arith) (omega arith), idt_set_handler_lem s i (target i) 142 v (omega arith))
          e,
      v',
      λ j k. l' j (omega arith),
    )
  where
    kept : (j : ℕ) → j < i + 1 → LeadsTo (with_handler s i (target i) 142) j (target j)
    kept j k = elim (ℕ_discrete i j) [
      | yes e ↦
          subst (λ n. LeadsTo (with_handler s i (target i) 142) n (target n)) e
            (LeadsTo-self s i (target i) v (omega arith) (b i))
      | no n ↦ LeadsTo-other s i j (target i) (target j) n (l j (omega arith))
    ]

clear_exceptions-append :
    (left i : ℕ) (pre rest : List ℕ)
    → length pre ≡ i
    → length rest ≡ left
    → clear_exceptions left i (pre ++ rest) ≡ some (pre ++ replicate left 0)
unfolding clear_exceptions
clear_exceptions-append zero i pre [] e h = refl
clear_exceptions-append zero i pre (x ∷ rest) e h = absurd (omega arith)
clear_exceptions-append (suc left) i pre [] e h = absurd (omega arith)
clear_exceptions-append (suc left) i pre (x ∷ rest) e h = rw (store-append pre x rest 0 i e) (
    rw (← snoc-append pre 0 rest) (
      clear_exceptions-append left (i + 1) (pre ++ 0 ∷ []) rest (omega (arith, length-snoc pre 0))
        (omega arith)
      ∙ ap some (snoc-append pre 0 (replicate left 0))))

-- The handler that each interrupt is to have.
abbrev pub handler_of : Handlers → ℕ → ℕ
handler_of t j =
    if j == 33
    then t.idt_keyboard_handler
    else (if j == 32
        then t.idt_clock_handler
        else (if ltb j 32 then get_or t.isr_stub_table j 0 else t.idt_dummy_handler))

-- The targets of the two loops.
abbrev loop_target : Handlers → ℕ → ℕ
loop_target t j = if ltb j 32 then get_or t.isr_stub_table j 0 else t.idt_dummy_handler

-- Addresses of 32 bits, with a stub for each of the first 32 interrupts.
pub record AreAddresses (t : Handlers) : Type 0 where
  pub stubs_size : length t.isr_stub_table ≡ 32
  pub stubs_in : (j : ℕ) → get_or t.isr_stub_table j 0 < 2 ^ 32
  pub dummy_in : t.idt_dummy_handler < 2 ^ 32
  pub clock_in : t.idt_clock_handler < 2 ^ 32
  pub keyboard_in : t.idt_keyboard_handler < 2 ^ 32

loop_target-in : (t : Handlers) (j : ℕ) → AreAddresses t → loop_target t j < 2 ^ 32
loop_target-in t j a = elim (Bool-cases (ltb j 32)) [
  | inl e ↦ rw e (a.stubs_in j)
  | inr e ↦ rw e a.dummy_in
]

-- The two loops together.
loops_lem :
    (t : Handlers) (s : Idt)
    → AreAddresses t
    → IsIdt s
    → (s1 : Idt) × (s2 : Idt) × (set_handlers 32 0 (get_elem? t.isr_stub_table) s ≡ some s1)
      × (set_handlers 480 32 (λ i. some t.idt_dummy_handler) s1 ≡ some s2)
      × IsIdt s2
      × ((j : ℕ) → j < 512 → LeadsTo s2 j (loop_target t j))
loops_lem t s a v =
    let (s1, e1, v1, l1) =
      set_handlers_lem 32 0 (get_elem? t.isr_stub_table) (loop_target t) s v (omega arith) stub
        (λ j. loop_target-in t j a) (λ j k. absurd (omega arith)) in
    let (s2, e2, v2, l2) =
      set_handlers_lem 480 32 (λ i. some t.idt_dummy_handler) (loop_target t) s1 v1 (omega arith)
        dummy (λ j. loop_target-in t j a) (λ j k. l1 j (omega arith)) in
    (s1, s2, e1, e2, v2, λ j k. l2 j (omega arith))
  where
    stub : (j : ℕ) → j < 0 + 32 → 0 ≤ j → get_elem? t.isr_stub_table j ≡ some (loop_target t j)
    stub j k m =
        rw (lt→ltb j 32 (omega arith))
          (get_elem?-eq-get_or t.isr_stub_table j 0 (omega (arith, a.stubs_size)))

    dummy : (j : ℕ) → j < 32 + 480 → 32 ≤ j → some t.idt_dummy_handler ≡ some (loop_target t j)
    dummy j k m = rw (above j m) refl
      where
        above : (j : ℕ) → 32 ≤ j → ltb j 32 ≡ false
        above j m = ground arith

-- With the two last handlers set as well.
all_set :
    (t : Handlers) (s : Idt)
    → AreAddresses t
    → IsIdt s
    → ((j : ℕ) → j < 512 → LeadsTo s j (loop_target t j))
    → (j : ℕ) → j < 512
    → LeadsTo
        (with_handler (with_handler s 32 t.idt_clock_handler 142) 33 t.idt_keyboard_handler 142)
        j
        (handler_of t j)
all_set t s a v l j k = elim (ℕ_discrete j 33) [
  | yes e ↦ rw e (
      LeadsTo-self (with_handler s 32 t.idt_clock_handler 142) 33 t.idt_keyboard_handler
        (with_handler-IsIdt s 32 t.idt_clock_handler 142 v) (omega arith) a.keyboard_in)
  | no n ↦
      LeadsTo-other (with_handler s 32 t.idt_clock_handler 142) 33 j t.idt_keyboard_handler
        (handler_of t j) (λ e. n (sym e))
        (rw (apart j 33 n) (elim (ℕ_discrete j 32) [
          | yes e ↦ rw e (LeadsTo-self s 32 t.idt_clock_handler v (omega arith) a.clock_in)
          | no m ↦
              LeadsTo-other s 32 j t.idt_clock_handler _ (λ e. m (sym e))
                (rw (apart j 32 m) (l j k))
        ]))
]
  where
    apart : (a b : ℕ) → a ≢ b → (a == b) ≡ false
    apart a b h = ground arith

-- `idt_init` succeeds, and all 512 gates lead to their handlers: the stubs, the clock at 32, the
-- keyboard at 33 and the dummy handler elsewhere. The tick counter and the exceptions are cleared.
pub idt_init-LeadsTo :
    (t : Handlers) (s : Idt)
    → AreAddresses t
    → IsIdt s
    → (s' : Idt) × (idt_init t s ≡ some s')
      × ((j : ℕ) → j < 512 → LeadsTo s' j (handler_of t j))
      × (s'.idt_tick_counter ≡ 0)
      × (s'.exception_table ≡ replicate 100 0)
unfolding idt_init
idt_init-LeadsTo t s a v =
    let (s1, s2, e1, e2, v2, l2) = loops_lem t s a v in
    let s3 = record s2 { idt_tick_counter = 0 } in
    let s4 = with_handler s3 32 t.idt_clock_handler 142 in
    let s5 = with_handler s4 33 t.idt_keyboard_handler 142 in
    let v3 : IsIdt s3 = record {
      table_size = v2.table_size;
      handlers_size = v2.handlers_size;
      exceptions_size = v2.exceptions_size;
    } in
    (
      record s5 { exception_table = replicate 100 0 },
      rw
          (
            e1,
            e2,
            idt_set_handler_lem s3 32 t.idt_clock_handler 142 v3 (omega arith),
            idt_set_handler_lem s4 33 t.idt_keyboard_handler 142
                (with_handler-IsIdt s3 32 t.idt_clock_handler 142 v3) (omega arith),
            clear_exceptions-append 100 0 [] s2.exception_table refl v2.exceptions_size,
          )
          refl,
      all_set t s3 a v3 l2,
      refl,
      refl,
    )
