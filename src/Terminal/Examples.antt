-- ===== src/Terminal/Examples.antt =====
-- The terminal at a blank screen.
use white_os.Base.{◌≡◌, refl, some, [], ◌∷◌, arith, set, replicate}
use white_os.Terminal.{Terminal, cell, terminal_writechar, terminal_print}
use white_os.Terminal.Cursor.{
  IsScreen, cursor, written, terminal_writechar-plain, terminal_print-plain,
}

abbrev at_end : Terminal
at_end = record { video_mem = replicate 2000 0; row = 24; col = 79 }

at_end-IsScreen : IsScreen at_end
at_end-IsScreen = record { size = refl; row_in = omega arith; col_in = omega arith }

terminal_writechar-plain_example :
    (s' : Terminal) × (terminal_writechar at_end b'A' ≡ some s')
    × (s'.video_mem ≡ set at_end.video_mem 1999 (cell b'A'))
    × (cursor s' ≡ 0)
    × IsScreen s'
terminal_writechar-plain_example =
    terminal_writechar-plain at_end b'A' at_end-IsScreen (omega arith) (omega arith)

terminal_print-plain_example :
    (s' : Terminal) × (terminal_print at_end (b'A' ∷ b'B' ∷ 0 ∷ []) ≡ some s')
    × (s'.video_mem ≡ written at_end.video_mem 1999 (b'A' ∷ b'B' ∷ []))
    × (cursor s' ≡ 1)
terminal_print-plain_example =
    terminal_print-plain at_end (b'A' ∷ b'B' ∷ []) [] (omega arith, (omega arith, tt))
      (omega arith, omega arith, (omega arith, omega arith, tt)) at_end-IsScreen
