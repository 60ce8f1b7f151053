-- ===== src/Programs/Ramscroller/Examples.antt =====
-- The program on a blank screen, in a memory whose bytes count up.
use white_os.Base.{ℕ, zero, suc, ◌%◌, ◌≡◌, refl, some, List, [], ◌∷◌, ◌++◌, arith, replicate}
use white_os.Base.Runs.{ret, fault}
use white_os.Heap.{
  Heap, heap_malloc, heap_malloc_blocks, heap_get_start_block, heap_mark_blocks_taken,
  heap_block_to_address, heap_align_value_to_upper,
}
use white_os.Kheap.{kmalloc}
use white_os.Programs.Ramscroller.{Scroller, getinput_number, ramscroller}
use white_os.Programs.Ramscroller.Draws.{IsScroller}
use white_os.Programs.Ramscroller.Input.{NoEnter}
use white_os.Programs.Ramscroller.Overrun.{getinput_number-overrun}
use white_os.Programs.Ramscroller.Moves.{Ended, Keys, done, press, jump, malloc, ramscroller-Keys}

abbrev counting : ℕ → ℕ
counting a = a % 256

abbrev two_blocks : Heap
two_blocks = record { table = record { entries = 0 ∷ 0 ∷ []; total = 2 }; saddr = 0x1000000 }

abbrev one_taken : Heap
one_taken = record { table = record { entries = 0x41 ∷ 0 ∷ []; total = 2 }; saddr = 0x1000000 }

abbrev started : Scroller
started = record {
  terminal = record { video_mem = replicate 2000 0; row = 24; col = 79 };
  kernel_heap = two_blocks;
  numstr_buff = replicate 32 0xff;
  mem_addr = 0xfffffff0;
}

started-IsScroller : IsScroller started
started-IsScroller = record {
  screen = record { size = refl; row_in = omega arith; col_in = omega arith };
  buffer = refl;
}

-- Down by 256, 16 bytes allocated, to the address 20, and down by 16.
abbrev keys : List ℕ
keys = 32 ∷ 160 ∷ 52 ∷ 2 ∷ 7 ∷ 28 ∷ 156 ∷ 57 ∷ 28 ∷ 3 ∷ 11 ∷ 28 ∷ 31 ∷ []

first_block : kmalloc two_blocks 16 ≡ some (0x1000000, one_taken)
unfolding kmalloc heap_malloc heap_malloc_blocks heap_get_start_block heap_mark_blocks_taken
    heap_block_to_address heap_align_value_to_upper
first_block = refl

keys-Keys : Keys keys 0 two_blocks 36 one_taken
keys-Keys = press 32 _ 0 36 two_blocks one_taken (omega arith) (omega arith) (omega arith) (
    press 160 _ 256 36 two_blocks one_taken (omega arith) (omega arith) (omega arith) (
      malloc (2 ∷ 7 ∷ []) _ 156 57 0x1000000 256 36 two_blocks one_taken one_taken
        (omega arith, (omega arith, tt)) (omega arith) first_block (omega arith)
        (jump (3 ∷ 11 ∷ []) _ 256 36 one_taken one_taken (omega arith, (omega arith, tt))
          (omega arith)
          (press 31 [] 20 36 one_taken one_taken (omega arith) (omega arith) (omega arith)
            (done 36 one_taken)))))

ramscroller-Keys_example :
    (s' : Scroller) × (ramscroller counting 0x100000 14 (keys ++ 1 ∷ 129 ∷ []) started
      ≡ ret (s', 129 ∷ []))
    × Ended counting 0x100000 (omega arith) s' 36 one_taken
ramscroller-Keys_example =
    ramscroller-Keys counting 0x100000 (omega arith) (129 ∷ []) 14 started keys-Keys (omega arith)
      started-IsScroller

ones-NoEnter : (n : ℕ) → NoEnter (replicate n 2)
ones-NoEnter zero = tt
ones-NoEnter (suc n) = (omega arith, ones-NoEnter n)

getinput_number-overrun_example : getinput_number (replicate 32 2 ++ 28 ∷ []) started ≡ fault
getinput_number-overrun_example =
    getinput_number-overrun (replicate 32 2) [] started (ones-NoEnter 32) (omega arith)
      started-IsScroller
