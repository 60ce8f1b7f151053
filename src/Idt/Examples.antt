-- ===== src/Idt/Examples.antt =====
-- Gates and exceptions from tables of zeros.
use white_os.Base.{
  ℕ, zero, suc, ◌+◌, ◌%◌, ◌^◌, ◌<◌, ◌≡◌, refl, some, List, [], ◌∷◌, arith, set, get_or, replicate,
}
use white_os.Idt.{IdtEntry, Idt, Handlers, idt_init, exception_handler, fetch_exception}
use white_os.Idt.Gates.{IsIdt, AreAddresses, LeadsTo, handler_of, idt_init-LeadsTo}
use white_os.Idt.Exceptions.{IsTable, exception_handler-Holds, fetch_exception_lem}

abbrev entry : IdtEntry
entry = record {
  offset_lowerbits = 0;
  selector = 0;
  zero_byte = 0;
  flags = 0;
  offset_higherbits = 0;
}

abbrev start : Idt
start = record {
  idt_table = replicate 512 entry;
  idt_handlers = replicate 512 0;
  idt_tick_counter = 5;
  exception_table = replicate 100 0;
  exception_table_head = 99;
  exception_table_tail = 99;
}

abbrev stubs : Handlers
stubs = record {
  isr_stub_table = replicate 32 1048576;
  idt_dummy_handler = 1048600;
  idt_clock_handler = 1048700;
  idt_keyboard_handler = 1048800;
}

abbrev zeros : ℕ → List ℕ
zeros n = replicate n 0

zero_at : (n k : ℕ) → get_or (zeros n) k 0 ≡ 0
zero_at zero k = refl
zero_at (suc n) zero = refl
zero_at (suc n) (suc k) = zero_at n k

small_at : (n k : ℕ) → get_or (replicate n 1048576) k 0 < 2 ^ 32
small_at zero k = omega arith
small_at (suc n) zero = omega arith
small_at (suc n) (suc k) = small_at n k

stubs-AreAddresses : AreAddresses stubs
stubs-AreAddresses = record {
  stubs_size = refl;
  stubs_in = small_at 32;
  dummy_in = omega arith;
  clock_in = omega arith;
  keyboard_in = omega arith;
}

start-IsIdt : IsIdt start
start-IsIdt = record { table_size = refl; handlers_size = refl; exceptions_size = refl }

start-IsTable : IsTable start []
start-IsTable = record {
  reads = record {
    size = refl;
    head_in = omega arith;
    room = omega arith;
    stored = λ k h. absurd (omega arith);
    empty = λ k l u. zero_at 100 ((99 + k) % 100);
    live = λ k h. absurd (omega arith);
  };
  tail_at = refl;
}

-- the table with a division by zero waiting
abbrev raised : Idt
raised = record start { exception_table = set (replicate 100 0) 99 1; exception_table_tail = 0 }

raised-IsTable : IsTable raised (1 ∷ [])
unfolding exception_handler
raised-IsTable = exception_handler-Holds start [] 0 start-IsTable (omega arith)

idt_init-LeadsTo_example :
    (s' : Idt) × (idt_init stubs start ≡ some s')
    × ((j : ℕ) → j < 512 → LeadsTo s' j (handler_of stubs j))
    × (s'.idt_tick_counter ≡ 0)
    × (s'.exception_table ≡ replicate 100 0)
idt_init-LeadsTo_example = idt_init-LeadsTo stubs start stubs-AreAddresses start-IsIdt

fetch_exception_lem_example : (s' : Idt) × (fetch_exception raised ≡ some (1, s')) × IsTable s' []
fetch_exception_lem_example = fetch_exception_lem raised (1 ∷ []) raised-IsTable
