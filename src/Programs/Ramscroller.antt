-- ===== src/Programs/Ramscroller.antt =====
-- src/whitelib/programs/ramscroller.c: scrolling through the memory. `ram` gives the bytes of the
-- memory, which the program only reads, and `code_address` is the address of the function
-- `print_ram`, which it prints. `print_clock` and `scan_keys` are not called. An `intptr_t` is its
-- 32 bits.
pub mod Draws
pub mod Screen
pub mod Input
pub mod Overrun
pub mod Typing
pub mod Moves
mod Examples
use white_os.Base.{
  ℕ, zero, suc, ◌+◌, ◌-◌, ◌*◌, ◌/◌, ◌%◌, ◌^◌, Bool, true, false, ◌&&◌, Option, none, some, List, [],
  ◌∷◌, ltb, leb, ◌==◌, if◌then◌else◌, store, ◌>>=◌,
}
use white_os.Base.Int.{ℤ, pos, negsuc}
use white_os.Base.Runs.{Run, ret, fault, running, access, and_then}
use white_os.Strings.{to_string_hex, to_int}
use white_os.Terminal.{
  Terminal, terminal_clear, terminal_print, terminal_gotoxy, terminal_putchar, terminal_writechar,
}
use white_os.Heap.{Heap}
use white_os.Kheap.{kmalloc}
use white_os.Programs.Texts.{text}

-- The keys, as `init` sets them.
abbrev pub key_up : ℕ
key_up = 17

abbrev pub key_up2 : ℕ
key_up2 = 18

abbrev pub key_up3 : ℕ
key_up3 = 19

abbrev pub key_down : ℕ
key_down = 31

abbrev pub key_down2 : ℕ
key_down2 = 32

abbrev pub key_down3 : ℕ
key_down3 = 33

abbrev pub key_esc : ℕ
key_esc = 1

abbrev pub key_enter : ℕ
key_enter = 28

abbrev pub key_dot : ℕ
key_dot = 52

pub record Scroller : Type 0 where
  pub terminal : Terminal
  pub kernel_heap : Heap
  pub numstr_buff : List ℕ
  pub mem_addr : ℕ

abbrev pub with_terminal : Scroller → Terminal → Scroller
with_terminal s t = record s { terminal = t }

-- Printing what stands in `numstr_buff`, and a literal.
unfoldable pub print_buff : Scroller → Option Scroller
print_buff s = do t ← terminal_print s.terminal s.numstr_buff; some (with_terminal s t)

unfoldable pub print_text : Scroller → List ℕ → Option Scroller
print_text s str = do t ← terminal_print s.terminal str; some (with_terminal s t)

unfoldable pub hex_buff : Scroller → ℕ → Option Scroller
hex_buff s number = do
  buff ← to_string_hex number s.numstr_buff
  some (record s { numstr_buff = buff })

-- A character at a place.
unfoldable pub put_at : Scroller → (x y c : ℕ) → Option Scroller
put_at s x y c = do
  t ← terminal_putchar (terminal_gotoxy s.terminal x y) c
  some (with_terminal s t)

module _ (ram : ℕ → ℕ) where
  -- The 32-bit word at an address.
  abbrev pub word_of : ℕ → ℕ
  word_of a =
      ram a % 256
      + 2 ^ 8 * (ram (a + 1) % 256)
      + 2 ^ 16 * (ram (a + 2) % 256)
      + 2 ^ 24 * (ram (a + 3) % 256)

  -- The columns of a row from `col` on.
  unfoldable pub print_columns : (left col row : ℕ) → Scroller → Option Scroller
  unfolding print_buff hex_buff put_at
  print_columns zero col row s = some s
  print_columns (suc left) col row s =
      let mem_val = word_of ((s.mem_addr + 4 * col + 4 * row * 4) % 2 ^ 32) in
      do
        s1 ← hex_buff s mem_val
        s2 ← print_buff (with_terminal s1 (terminal_gotoxy s1.terminal (13 + 12 * col) (2 + row)))
        s3 ← put_at s2 (63 + col * 4) (2 + row) (mem_val % 256)
        s4 ← put_at s3 (64 + col * 4) (2 + row) (mem_val / 2 ^ 8 % 256)
        s5 ← put_at s4 (65 + col * 4) (2 + row) (mem_val / 2 ^ 16 % 256)
        s6 ← put_at s5 (66 + col * 4) (2 + row) (mem_val / 2 ^ 24 % 256)
        print_columns left (col + 1) row s6

  unfoldable pub print_rows : (left row : ℕ) → Scroller → Option Scroller
  unfolding print_columns
  print_rows zero row s = some s
  print_rows (suc left) row s =
      let s0 = with_terminal s (terminal_gotoxy s.terminal 0 (2 + row)) in
      do
        s1 ← hex_buff s0 ((s.mem_addr + 4 * row * 4) % 2 ^ 32)
        s2 ← print_buff s1
        t ← terminal_writechar s2.terminal b'|'
        s3 ← print_columns 4 0 row (with_terminal s2 t)
        print_rows left (row + 1) s3

  module _ (code_address : ℕ) where
    unfoldable pub print_ram : Scroller → Option Scroller
    unfolding print_rows print_text
    print_ram s = do
      t ← terminal_clear s.terminal
      s1 ←
          print_text (with_terminal s t)
            (text "Keys: [wer]=up, [sdf]=down, .=test malloc, Enter=jump to addr, Escape = quit\n")
      s2 ←
          print_text s1
            (text "RAM addr   | Hex Values:                                     | Char Values:\n")
      s3 ← print_rows 20 0 s2
      s4 ← print_text s3 (text "\n\nvoid print_ram() addr: ")
      s5 ← hex_buff s4 code_address
      print_buff s5

-- `getinput_number` with the keys to come, the next digit for index `i` of the buffer: the state, and
-- the keys that are left.
unfoldable pub getinput_loop : List ℕ → (i : ℕ) → Scroller → Run (Scroller × List ℕ)
unfolding print_text
getinput_loop [] i s = running
getinput_loop (key ∷ keys) i s =
    let rest = getinput_loop keys in
    if key == key_enter
    then access (store s.numstr_buff i 0) (λ buff.
      access (print_text (record s { numstr_buff = buff }) (text "\nok\n")) λ s'. ret (s', keys))
    else (if leb 2 key && leb key 11
        then (let c = b'0' + (key - 1) % 10 in
            access (store s.numstr_buff i c) λ buff.
              access (terminal_writechar s.terminal c)
                λ t. rest (i + 1) (record s { numstr_buff = buff; terminal = t }))
        else rest i s)

unfoldable pub getinput_number : List ℕ → Scroller → Run (Scroller × List ℕ)
getinput_number keys s = getinput_loop keys 0 s

-- `mem_addr >= k` for a signed address
abbrev pub at_least : (mem_addr k : ℕ) → Bool
at_least mem_addr k = leb k mem_addr && ltb mem_addr (2 ^ 31)

-- The address behind the keys that scroll; `none` where the code goes on to its other tests.
unfoldable pub scrolled : (key mem_addr : ℕ) → Option ℕ
scrolled key mem_addr =
    if key == key_up && at_least mem_addr 16
    then some (mem_addr - 16)
    else (if key == key_up2 && at_least mem_addr 256
        then some (mem_addr - 256)
        else (if key == key_up3 && at_least mem_addr 4096
            then some (mem_addr - 4096)
            else (if key == key_down
                then some ((mem_addr + 16) % 2 ^ 32)
                else (if key == key_down2
                    then some ((mem_addr + 256) % 2 ^ 32)
                    else (if key == key_down3 then some ((mem_addr + 4096) % 2 ^ 32) else none)))))

-- An `int` as 32 bits.
abbrev pub bits_of : ℤ → ℕ
bits_of (pos n) = n % 2 ^ 32
bits_of (negsuc n) = 2 ^ 32 - 1 - n % 2 ^ 32

-- Two keys that are thrown away.
abbrev pub skip_two : List ℕ → Run (List ℕ)
skip_two [] = running
skip_two (down ∷ []) = running
skip_two (down ∷ up ∷ keys) = ret keys

-- A cleared screen with a question, and the number that is typed in.
unfoldable pub ask_number : List ℕ → List ℕ → Scroller → Run (ℤ × Scroller × List ℕ)
unfolding getinput_number print_text
ask_number question keys s = access (terminal_clear s.terminal) λ t.
    access (print_text (with_terminal s t) question) λ s1.
      and_then (getinput_number keys s1)
        λ (s2, keys'). access (to_int s2.numstr_buff) λ val. ret (val, s2, keys')

-- The answer to `kmalloc`.
unfoldable pub report_malloc : (val : ℤ) → Scroller → Option Scroller
unfolding print_buff print_text hex_buff
report_malloc val s = do
  s1 ← print_text s (text "\nAllocating ")
  s2 ← print_buff s1
  s3 ← print_text s2 (text " bytes\n")
  (ptr, heap) ← kmalloc s3.kernel_heap (bits_of val)
  s4 ← hex_buff (record s3 { kernel_heap = heap }) ptr
  s5 ← print_text s4 (text "Allocated memory on address: ")
  s6 ← print_buff s5
  print_text s6 (text "\nPress key to continue\n")

unfoldable pub test_malloc : List ℕ → Scroller → Run (Scroller × List ℕ)
unfolding ask_number report_malloc
test_malloc keys s =
    and_then (ask_number (text "How many bytes to allocate: ") keys s) λ (val, s1, keys1).
      access (report_malloc val s1) λ s2. and_then (skip_two keys1) λ keys2. ret (s2, keys2)

unfoldable pub go_to : List ℕ → Scroller → Run (Scroller × List ℕ)
unfolding ask_number
go_to keys s =
    and_then (ask_number (text "Go to (decimal) memory addr: ") keys s)
      λ (val, s1, keys1). ret (record s1 { mem_addr = bits_of val }, keys1)

-- What a key does: whether the loop goes on, the state, and the keys that are left.
unfoldable pub handle_key : (key : ℕ) → List ℕ → Scroller → Run (Bool × Scroller × List ℕ)
unfolding scrolled test_malloc go_to
handle_key key keys s = elim (scrolled key s.mem_addr) [
  | some a ↦ ret (true, record s { mem_addr = a }, keys)
  | none ↦
      if key == key_esc
      then ret (false, s, keys)
      else (if key == key_dot
          then and_then (test_malloc keys s) (λ (s', keys'). ret (true, s', keys'))
          else (if key == key_enter
              then and_then (go_to keys s) (λ (s', keys'). ret (true, s', keys'))
              else ret (true, s, keys)))
]

module _ (ram : ℕ → ℕ) (code_address : ℕ) where
  -- The loop over the keys.
  unfoldable pub scroll_loop : (fuel : ℕ) → List ℕ → Scroller → Run (Scroller × List ℕ)
  unfolding handle_key print_ram
  scroll_loop zero keys s = running
  scroll_loop (suc fuel) [] s = running
  scroll_loop (suc fuel) (key ∷ keys) s =
      let again = scroll_loop fuel in
      and_then (handle_key key keys s) λ (more, s1, keys').
        access (print_ram ram code_address s1)
          λ s2. if more then again keys' s2 else ret (s2, keys')

  -- A round for each key is enough.
  unfoldable pub ramscroller : (fuel : ℕ) → List ℕ → Scroller → Run (Scroller × List ℕ)
  unfolding scroll_loop
  ramscroller fuel keys s =
      access (print_ram ram code_address (record s { mem_addr = 0 })) λ s1. scroll_loop fuel keys s1
