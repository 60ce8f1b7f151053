-- ===== src/Idt.antt =====
-- src/idt/idt.c: interrupt handlers and exceptions. Addresses of handlers are 32-bit numbers;
-- an access outside an array is `none`. What the functions print, and the acknowledgements to the
-- interrupt controller, are not here.
pub mod Gates
pub mod Exceptions
mod Examples
use white_os.Base.{
  ℕ, zero, suc, ◌+◌, ◌-◌, ◌*◌, ◌/◌, ◌%◌, ◌^◌, ◌≤◌, ◌<◌, bit_and, bit_or, ◌≡◌, refl, sym, ap, ap₂,
  ◌∙◌, subst, ◌≢◌, ◌↔◌, ◌⊎◌, inl, inr, Bool, true, false, not, ◌&&◌, ◌||◌, Option, none, some, List,
  [], ◌∷◌, ◌++◌, map, append-nil, append_assoc, arith, dec_lt, dec_le, ℕ_discrete, ltb, leb, ◌==◌,
  if◌then◌else◌, ltb→lt, lt→ltb, leb→le, ==_iff, Bool-cases, Option-cases, length, get_elem?, set,
  get_or, take, drop, replicate, length-append, length-set, get_elem?-set_self, get_elem?-set_ne,
  take-append-drop, length-take, length-drop, length-replicate, length-map, ◌>>=◌, store,
  set-append, store-append, store_of_lt, get_elem?-append, get_or-append_left, get_or-append_right,
  snoc-append, length-snoc, get_elem?-drop, take_self, drop_self, replicate-add, get_or-set_self,
  get_or-set_ne, get_or-snoc, get_elem?-eq-get_or,
}
use white_os.Events.{Events, system_push_event, sys_event_keyboard}

-- WHITEOS_TOTAL_INTERRUPTS
abbrev pub total_interrupts : ℕ
total_interrupts = 512

-- `struct idt_entry`
pub record IdtEntry : Type 0 where
  pub offset_lowerbits : ℕ
  pub selector : ℕ
  pub zero_byte : ℕ
  pub flags : ℕ
  pub offset_higherbits : ℕ

pub record Idt : Type 0 where
  pub idt_table : List IdtEntry
  pub idt_handlers : List ℕ
  pub idt_tick_counter : ℕ
  pub exception_table : List ℕ
  pub exception_table_head : ℕ
  pub exception_table_tail : ℕ

-- `base & 0xFFFF` and `(base >> 16) & 0xFFFF` in the two halves of the offset
unfoldable pub init_idt_entry : Idt → (isr_number selector flags : ℕ) → Option Idt
init_idt_entry s isr_number selector flags = do
  base ← get_elem? s.idt_handlers isr_number
  table ← store s.idt_table isr_number (record {
    offset_lowerbits = base % 65536;
    selector = selector;
    zero_byte = 0;
    flags = flags;
    offset_higherbits = base / 65536 % 65536;
  })
  some (record s { idt_table = table })

unfoldable pub idt_set_handler : Idt → (isr_number handler flags : ℕ) → Option Idt
unfolding init_idt_entry
idt_set_handler s isr_number handler flags = do
  handlers ← store s.idt_handlers isr_number handler
  init_idt_entry (record s { idt_handlers = handlers }) isr_number 8 flags

-- `(idt_tick_counter + 1)`, counted up to the range of an `int`
unfoldable pub clock_handler : Idt → Idt
clock_handler s = record s { idt_tick_counter = s.idt_tick_counter + 1 }

unfoldable pub keyboard_handler : Events → ℕ → Option Events
keyboard_handler events key = system_push_event events sys_event_keyboard key

unfoldable pub exception_handler : Idt → ℕ → Option Idt
exception_handler s etype = do
  table ← store s.exception_table s.exception_table_tail (etype + 1)
  some (record s {
    exception_table = table;
    exception_table_tail = (s.exception_table_tail + 1) % 100;
  })

pub clear_exceptions : (left i : ℕ) → List ℕ → Option (List ℕ)
clear_exceptions zero i table = some table
clear_exceptions (suc left) i table = do
  table' ← store table i 0
  clear_exceptions left (i + 1) table'

-- The loops of `idt_init` over the interrupts from `i` on, with the handler of each.
pub set_handlers : (left i : ℕ) → (handler : ℕ → Option ℕ) → Idt → Option Idt
unfolding idt_set_handler
set_handlers zero i handler s = some s
set_handlers (suc left) i handler s = do
  h ← handler i
  s' ← idt_set_handler s i h 142
  set_handlers left (i + 1) handler s'

-- The addresses of the handlers in assembly.
pub record Handlers : Type 0 where
  pub isr_stub_table : List ℕ
  pub idt_dummy_handler : ℕ
  pub idt_clock_handler : ℕ
  pub idt_keyboard_handler : ℕ

unfoldable pub idt_init : Handlers → Idt → Option Idt
idt_init stubs s = do
  s1 ← set_handlers 32 0 (get_elem? stubs.isr_stub_table) s
  s2 ← set_handlers (total_interrupts - 32) 32 (λ i. some stubs.idt_dummy_handler) s1
  s3 ← idt_set_handler (record s2 { idt_tick_counter = 0 }) 32 stubs.idt_clock_handler 142
  s4 ← idt_set_handler s3 33 stubs.idt_keyboard_handler 142
  table ← clear_exceptions 100 0 s4.exception_table
  some (record s4 { exception_table = table })

-- The number of the exception plus one, or 0 when none waits.
unfoldable pub fetch_exception : Idt → Option (ℕ × Idt)
fetch_exception s = get_elem? s.exception_table s.exception_table_head >>= λ exception_number.
    if exception_number == 0 then some (0, s) else (do
      table ← store s.exception_table s.exception_table_head 0
      some (
        exception_number,
        record s {
          exception_table = table;
          exception_table_head = (s.exception_table_head + 1) % 100;
        },
      ))
