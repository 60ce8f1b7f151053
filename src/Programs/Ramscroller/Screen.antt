-- ===== src/Programs/Ramscroller/Screen.antt =====
-- The picture of the memory.
use white_os.Base.{ℕ, zero, suc, ◌+◌, ◌*◌, ◌%◌, ◌^◌, ◌≤◌, ◌<◌, ◌≡◌, refl, some, arith}
use white_os.Terminal.{terminal_gotoxy}
use white_os.Terminal.Cursor.{terminal_writechar-Shows}
use white_os.Programs.Texts.{codes}
use white_os.Programs.Ramscroller.{
  Scroller, with_terminal, word_of, print_columns, print_rows, print_ram,
}
use white_os.Programs.Ramscroller.Draws.{
  IsScroller, Keeps, Draws, Draws-then, print_line, hex_buff-then, print_hex-Draws, goto-IsScroller,
  put_at-Draws, word_of-lt, Draws-from, terminal-then, terminal_clear-Shows,
}

module _ (ram : ℕ → ℕ) where
  print_columns-Draws :
      (left col row : ℕ) (s : Scroller)
      → col + left ≤ 4
      → row < 20
      → IsScroller s
      → Draws (print_columns ram left col row s) s
  unfolding print_columns
  print_columns-Draws zero col row s h k v =
      (s, refl, record { valid = v; mem_addr_same = refl; heap_same = refl })
  print_columns-Draws (suc left) col row s h k v =
      hex_buff-then s number _ (word_of-lt ram _) v λ s1 k1 b1.
        Draws-then _ s1 _
          (Draws-from _ s1 (terminal_gotoxy s1.terminal (13 + 12 * col) (2 + row)) (
            print_hex-Draws _ number _ b1
              (goto-IsScroller s1 (13 + 12 * col) (2 + row) (omega arith) (omega arith) k1.valid)))
          λ s2 v2.
            Draws-then _ s2 _
              (put_at-Draws s2 (63 + col * 4) (2 + row) _ (omega arith) (omega arith) v2)
              λ s3 v3.
                Draws-then _ s3 _
                  (put_at-Draws s3 (64 + col * 4) (2 + row) _ (omega arith) (omega arith) v3)
                  λ s4 v4.
                    Draws-then _ s4 _
                      (put_at-Draws s4 (65 + col * 4) (2 + row) _ (omega arith) (omega arith) v4)
                      λ s5 v5.
                        Draws-then _ s5 _
                          (put_at-Draws s5 (66 + col * 4) (2 + row) _ (omega arith) (omega arith)
                            v5)
                          λ s6 v6. print_columns-Draws left (col + 1) row s6 (omega arith) k v6
    where
      number : ℕ
      number = word_of ram ((s.mem_addr + 4 * col + 4 * row * 4) % 2 ^ 32)

  print_rows-Draws :
      (left row : ℕ) (s : Scroller)
      → row + left ≤ 20
      → IsScroller s
      → Draws (print_rows ram left row s) s
  unfolding print_rows
  print_rows-Draws zero row s h v =
      (s, refl, record { valid = v; mem_addr_same = refl; heap_same = refl })
  print_rows-Draws (suc left) row s h v = Draws-from _ s (terminal_gotoxy s.terminal 0 (2 + row)) (
      hex_buff-then _ number _ (omega arith)
        (goto-IsScroller s 0 (2 + row) (omega arith) (omega arith) v)
        λ s1 k1 b1. Draws-then _ s1 _ (print_hex-Draws s1 number _ b1 k1.valid) λ s2 v2.
          terminal-then s2 _ _ v2 (terminal_writechar-Shows s2.terminal b'|' v2.screen) λ t w.
            Draws-then _ (with_terminal s2 t) _
              (print_columns-Draws 4 0 row (with_terminal s2 t) (omega arith) (omega arith) w)
              λ s3 v3. print_rows-Draws left (row + 1) s3 (omega arith) v3)
    where
      number : ℕ
      number = (s.mem_addr + 4 * row * 4) % 2 ^ 32

  -- For every content of the memory and every address `print_ram` returns and stays inside the
  -- video memory and the number buffer; the cursor stays on the screen, and the address and the heap
  -- are as before.
  pub print_ram-Draws :
      (code_address : ℕ) (s : Scroller)
      → code_address < 2 ^ 32
      → IsScroller s
      → (s' : Scroller) × (print_ram ram code_address s ≡ some s') × Keeps s s'
  unfolding print_ram
  print_ram-Draws code_address s h v =
      terminal-then s _ _ v (terminal_clear-Shows s.terminal v.screen) λ t w.
        Draws-then _ (with_terminal s t) _
          (print_line (with_terminal s t)
            (codes "Keys: [wer]=up, [sdf]=down, .=test malloc, Enter=jump to addr, Escape = quit\n")
            refl w)
          λ s1 v1.
            Draws-then _ s1 _
              (print_line s1
                (codes
                  "RAM addr   | Hex Values:                                     | Char Values:\n")
                refl v1)
              λ s2 v2. Draws-then _ s2 _ (print_rows-Draws 20 0 s2 (omega arith) v2) λ s3 v3.
                Draws-then _ s3 _ (print_line s3 (codes "\n\nvoid print_ram() addr: ") refl v3)
                  λ s4 v4.
                    hex_buff-then s4 code_address _ h v4
                      λ s5 k5 b5. print_hex-Draws s5 code_address _ b5 k5.valid
