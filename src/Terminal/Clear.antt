-- ===== src/Terminal/Clear.antt =====
-- Clearing the screen, and cells that are written away from the cursor's path.
use white_os.Base.{
  ℕ, zero, suc, ◌+◌, ◌*◌, ◌≤◌, ◌<◌, ◌≡◌, refl, ◌∙◌, some, List, arith, length, set, length-set,
  store_of_lt,
}
use white_os.Terminal.{
  Terminal, cell, clear_column, clear_columns, terminal_clear, terminal_gotoxy, terminal_putchar,
}
use white_os.Terminal.Cursor.{IsScreen}

clear_column-length :
    (left y x : ℕ) (mem : List ℕ)
    → x < 80
    → y + left ≤ 25
    → length mem ≡ 2000
    → (mem' : List ℕ) × (clear_column left y x mem ≡ some mem') × (length mem' ≡ 2000)
unfolding clear_column
clear_column-length zero y x mem h l e = (mem, refl, e)
clear_column-length (suc left) y x mem h l e =
    let (mem', r, e') =
      clear_column-length left (y + 1) x (set mem (x + y * 80) (cell b' ')) h (omega arith)
        (length-set mem (x + y * 80) (cell b' ') ∙ e) in
    (mem', rw (store_of_lt mem (x + y * 80) (cell b' ') (omega arith)) r, e')

clear_columns-length :
    (left x : ℕ) (mem : List ℕ)
    → x + left ≤ 80
    → length mem ≡ 2000
    → (mem' : List ℕ) × (clear_columns left x mem ≡ some mem') × (length mem' ≡ 2000)
unfolding clear_columns
clear_columns-length zero x mem h e = (mem, refl, e)
clear_columns-length (suc left) x mem h e =
    let (mem1, r1, e1) = clear_column-length 25 0 x mem (omega arith) (omega arith) e in
    let (mem2, r2, e2) = clear_columns-length left (x + 1) mem1 (omega arith) e1 in
    (mem2, rw r1 r2, e2)

-- `terminal_clear` on a screen of 2000 cells stays inside it, and puts the cursor at its start.
pub terminal_clear-IsScreen :
    (s : Terminal) → IsScreen s → (s' : Terminal) × (terminal_clear s ≡ some s') × IsScreen s'
unfolding terminal_clear
terminal_clear-IsScreen s v =
    let (mem, r, e) = clear_columns-length 80 0 s.video_mem (omega arith) v.size in
    (
      record { video_mem = mem; row = 0; col = 0 },
      rw r refl,
      record { size = e; row_in = omega arith; col_in = omega arith },
    )

pub terminal_gotoxy-IsScreen :
    (s : Terminal) (x y : ℕ) → x < 80 → y < 25 → IsScreen s → IsScreen (terminal_gotoxy s x y)
unfolding terminal_gotoxy
terminal_gotoxy-IsScreen s x y h k v = record { size = v.size; row_in = k; col_in = h }

pub terminal_putchar-IsScreen :
    (s : Terminal) (c : ℕ)
    → IsScreen s
    → (s' : Terminal) × (terminal_putchar s c ≡ some s') × IsScreen s'
unfolding terminal_putchar
terminal_putchar-IsScreen s c v = (
  record s { video_mem = set s.video_mem (s.col + s.row * 80) (cell c) },
  rw
      (store_of_lt s.video_mem (s.col + s.row * 80) (cell c)
        (omega (arith, v.size, v.row_in, v.col_in)))
      refl,
  record { size = length-set s.video_mem _ _ ∙ v.size; row_in = v.row_in; col_in = v.col_in },
)
