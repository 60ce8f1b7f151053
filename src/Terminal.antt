-- ===== src/Terminal.antt =====
-- src/terminal/terminal.c: text output to a screen of 25 rows of 80 cells. `video_mem` is the list
-- of the cells; a write outside it is `none`. `row` and `col` are not negative.
pub mod Cursor
pub mod Clear
mod Examples
use white_os.Base.{
  ℕ, zero, suc, ◌+◌, ◌-◌, ◌*◌, ◌/◌, ◌%◌, ◌^◌, ◌≤◌, ◌<◌, bit_and, bit_or, ◌≡◌, refl, sym, ap, ap₂,
  ◌∙◌, subst, ◌≢◌, ◌↔◌, ◌⊎◌, inl, inr, Bool, true, false, not, ◌&&◌, ◌||◌, Option, none, some, List,
  [], ◌∷◌, ◌++◌, map, append-nil, append_assoc, arith, dec_lt, dec_le, ℕ_discrete, ltb, leb, ◌==◌,
  if◌then◌else◌, ltb→lt, lt→ltb, leb→le, ==_iff, Bool-cases, Option-cases, length, get_elem?, set,
  get_or, take, drop, replicate, length-append, length-set, get_elem?-set_self, get_elem?-set_ne,
  take-append-drop, length-take, length-drop, length-replicate, length-map, ◌>>=◌, store,
  set-append, store-append, store_of_lt, get_elem?-append, get_or-append_left, get_or-append_right,
  snoc-append, length-snoc, get_elem?-drop, take_self, drop_self, replicate-add, get_or-set_self,
  get_or-set_ne, get_or-snoc, get_elem?-eq-get_or,
}
use white_os.Strings.{strlen, char_value}
use white_os.Base.Int.{ℤ, pos, negsuc}

-- VGA_WIDTH
abbrev pub vga_width : ℕ
vga_width = 80

-- VGA_HEIGHT
abbrev pub vga_height : ℕ
vga_height = 25

pub record Terminal : Type 0 where
  pub video_mem : List ℕ
  pub row : ℕ
  pub col : ℕ

-- `colour` is 7 and is never set.
abbrev pub colour : ℕ
colour = 7

-- `(colour << 8) | c` in 16 bits; a `char` from 128 on is negative and sets all the upper bits.
unfoldable pub cell : ℕ → ℕ
cell c = if ltb c 128 then colour * 256 + c else 65280 + c

unfoldable pub terminal_gotoxy : Terminal → (x y : ℕ) → Terminal
terminal_gotoxy s x y = record s { col = x; row = y }

unfoldable pub terminal_getxy : Terminal → ℕ × ℕ
terminal_getxy s = (s.col, s.row)

unfoldable pub terminal_putchar : Terminal → ℕ → Option Terminal
unfolding cell
terminal_putchar s c = do
  mem ← store s.video_mem (s.col + s.row * vga_width) (cell c)
  some (record s { video_mem = mem })

unfoldable pub terminal_writechar : Terminal → ℕ → Option Terminal
unfolding cell
terminal_writechar s c =
    if c == b'\n'
    then some (record s { row = (s.row + 1) % vga_height; col = 0 })
    else (if c == b'\t'
        then (let col = s.col / 4 * 4 + 4 in
            if leb vga_width col
            then some (record s { col = 0; row = (s.row + 1) % vga_height })
            else some (record s { col = col }))
        else (do
          mem ← store s.video_mem (s.row * vga_width + s.col) (cell c)
          let col = (s.col + 1) % vga_width in
              some (record {
                video_mem = mem;
                row = if col == 0 then (s.row + 1) % vga_height else s.row;
                col = col;
              })))

pub print_loop : (left i : ℕ) → List ℕ → Terminal → Option Terminal
unfolding terminal_writechar
print_loop zero i str s = some s
print_loop (suc left) i str s = do
  c ← get_elem? str i
  s' ← terminal_writechar s c
  print_loop left (i + 1) str s'

unfoldable pub terminal_print : Terminal → List ℕ → Option Terminal
unfolding print_loop strlen
terminal_print s str = do len ← strlen str; print_loop len 0 str s

pub clear_column : (left y x : ℕ) → List ℕ → Option (List ℕ)
unfolding cell
clear_column zero y x mem = some mem
clear_column (suc left) y x mem = do
  mem' ← store mem (x + y * vga_width) (cell b' ')
  clear_column left (y + 1) x mem'

pub clear_columns : (left x : ℕ) → List ℕ → Option (List ℕ)
unfolding clear_column
clear_columns zero x mem = some mem
clear_columns (suc left) x mem = do
  mem' ← clear_column vga_height 0 x mem
  clear_columns left (x + 1) mem'

unfoldable pub terminal_clear : Terminal → Option Terminal
unfolding clear_columns
terminal_clear s = do
  mem ← clear_columns vga_width 0 s.video_mem
  some (record { video_mem = mem; row = 0; col = 0 })
