-- ===== src/Terminal/Cursor.antt =====
-- The cursor and the cells of the screen.
use white_os.Base.{
  ℕ, zero, suc, ◌+◌, ◌*◌, ◌/◌, ◌%◌, ◌≤◌, ◌<◌, ◌≡◌, refl, sym, ap₂, ◌∙◌, subst, ◌≢◌, inl, inr, false,
  Option, none, some, List, [], ◌∷◌, ◌++◌, arith, dec_lt, ℕ_discrete, leb, ◌==◌, if◌then◌else◌,
  ==_iff, Bool-cases, Option-cases, length, get_elem?, set, get_or, length-append, length-set,
  store_of_lt, get_elem?-append, snoc-append, length-snoc, get_elem?-eq-get_or,
}
use white_os.Strings.Length.{NoZero, strlen_lem}
use white_os.Terminal.{Terminal, cell, terminal_writechar, terminal_print, print_loop}

-- A screen of 2000 cells with the cursor on it.
pub record IsScreen (s : Terminal) : Type 0 where
  pub size : length s.video_mem ≡ 2000
  pub row_in : s.row < 25
  pub col_in : s.col < 80

-- The cell under the cursor.
abbrev pub cursor : Terminal → ℕ
cursor s = s.row * 80 + s.col

-- The row below, the first one after the last.
abbrev pub next_line : Terminal → ℕ
next_line s = (s.row + 1) % 25

-- A call that succeeds with a screen.
abbrev pub Shows : Option Terminal → Type 0
Shows none = ⊥
Shows (some s) = IsScreen s

other : (c k : ℕ) → c ≢ k → (c == k) ≡ false
other c k n = ground arith

-- Every other byte is written to the cell under the cursor, and the cursor goes one cell on, from
-- the last to the first.
pub terminal_writechar-plain :
    (s : Terminal) (c : ℕ)
    → IsScreen s
    → c ≢ b'\n'
    → c ≢ b'\t'
    → (s' : Terminal) × (terminal_writechar s c ≡ some s')
      × (s'.video_mem ≡ set s.video_mem (cursor s) (cell c))
      × (cursor s' ≡ (cursor s + 1) % 2000)
      × IsScreen s'
unfolding terminal_writechar
terminal_writechar-plain s c v n t = (
  wrote,
  rw
      (
        other c 10 n,
        other c 9 t,
        store_of_lt s.video_mem (cursor s) (cell c) (omega (arith, v.size, v.row_in, v.col_in)),
      )
      refl,
  refl,
  moved,
  record {
    size = length-set s.video_mem (cursor s) (cell c) ∙ v.size;
    row_in = ground (arith, v.row_in);
    col_in = omega arith;
  },
)
  where
    wrote : Terminal
    wrote = record {
      video_mem = set s.video_mem (cursor s) (cell c);
      row = if (s.col + 1) % 80 == 0 then (s.row + 1) % 25 else s.row;
      col = (s.col + 1) % 80;
    }

    moved : cursor wrote ≡ (cursor s + 1) % 2000
    moved = elim (dec_lt (s.col + 1) 80) [
      | yes l ↦ rw (other ((s.col + 1) % 80) 0 (omega arith)) (omega (arith, v.row_in, v.col_in))
      | no l ↦
          rw ((==_iff ((s.col + 1) % 80) 0).1 (omega (arith, v.col_in)))
            (omega (arith, v.row_in, v.col_in))
    ]

-- On a screen `terminal_writechar` never writes outside the video memory, for whatever byte, and
-- keeps the cursor on the screen.
pub terminal_writechar-Shows : (s : Terminal) (c : ℕ) → IsScreen s → Shows (terminal_writechar s c)
unfolding terminal_writechar
terminal_writechar-Shows s c v = elim (ℕ_discrete c 10) [
  | yes n ↦ rw n (below v)
  | no n ↦ elim (ℕ_discrete c 9) [
    | yes t ↦ rw t (elim (Bool-cases (leb 80 (s.col / 4 * 4 + 4))) [
      | inl l ↦ rw l (below v)
      | inr l ↦ rw l (record { size = v.size; row_in = v.row_in; col_in = ground arith })
    ])
    | no t ↦ let (s', e, m, k, w) = terminal_writechar-plain s c v n t in rw e w
  ]
]
  where
    below : IsScreen s → IsScreen (record s { row = (s.row + 1) % 25; col = 0 })
    below v = record { size = v.size; row_in = omega arith; col_in = omega arith }

print_loop-Shows :
    (left i : ℕ) (str : List ℕ) (s : Terminal)
    → i + left ≤ length str
    → IsScreen s
    → Shows (print_loop left i str s)
unfolding print_loop
print_loop-Shows zero i str s h v = v
print_loop-Shows (suc left) i str s h v =
    rw (get_elem?-eq-get_or str i 0 (omega arith))
      (elim (Option-cases (terminal_writechar s (get_or str i 0))) [
        | inl e ↦ absurd (subst Shows e (terminal_writechar-Shows s (get_or str i 0) v))
        | inr (s', e) ↦ rw e (
            print_loop-Shows left (i + 1) str s' (omega arith)
              (subst Shows e (terminal_writechar-Shows s (get_or str i 0) v)))
      ])

-- For every terminated text, whatever its bytes, `terminal_print` returns, stays inside the video
-- memory and leaves the cursor on the screen.
pub terminal_print-Shows :
    (s : Terminal) (text rest : List ℕ)
    → NoZero text
    → IsScreen s
    → Shows (terminal_print s (text ++ 0 ∷ rest))
unfolding terminal_print
terminal_print-Shows s text rest h v = rw (strlen_lem text rest h) (
    print_loop-Shows (length text) 0 (text ++ 0 ∷ rest) s
      (omega (arith, length-append text (0 ∷ rest))) v)

-- No line feed and no tab.
abbrev pub NoControl : List ℕ → Type 0
NoControl [] = Unit
NoControl (c ∷ cs) = (c ≢ b'\n') × (c ≢ b'\t') × NoControl cs

-- The cells of a text from a position on, going on at the first cell behind the last.
abbrev pub written : List ℕ → ℕ → List ℕ → List ℕ
written mem p [] = mem
written mem p (c ∷ cs) = written (set mem p (cell c)) ((p + 1) % 2000) cs

print_loop-step :
    (left i : ℕ) (str : List ℕ) (s s' : Terminal) (c : ℕ)
    → get_elem? str i ≡ some c
    → terminal_writechar s c ≡ some s'
    → print_loop (suc left) i str s ≡ print_loop left (i + 1) str s'
unfolding print_loop
print_loop-step left i str s s' c e f = rw (e, f) refl

print_loop-plain :
    (pre text rest : List ℕ) (s : Terminal)
    → NoControl text
    → IsScreen s
    → (s' : Terminal) × (print_loop (length text) (length pre) (pre ++ (text ++ rest)) s ≡ some s')
      × (s'.video_mem ≡ written s.video_mem (cursor s) text)
      × (cursor s' ≡ (cursor s + length text) % 2000)
unfolding print_loop
print_loop-plain pre [] rest s h v = (s, refl, refl, omega (arith, v.row_in, v.col_in))
print_loop-plain pre (c ∷ text) rest s h v =
    let (s1, e, m, k, v1) = terminal_writechar-plain s c v h.0 h.1 in
    let (s2, e2, m2, k2) = print_loop-plain (pre ++ c ∷ []) text rest s1 h.2 v1 in
    (
      s2,
      print_loop-step (length text) (length pre) (pre ++ c ∷ (text ++ rest)) s s1 c
            (get_elem?-append pre c (text ++ rest) (length pre) refl) e
          ∙ ap₂ (λ n str. print_loop (length text) n str s1) (sym (length-snoc pre c))
              (sym (snoc-append pre c (text ++ rest)))
          ∙ e2,
      m2 ∙ rw (m, k) refl,
      omega (arith, k, k2),
    )

-- A text without line feeds and tabs is written cell by cell from the cursor on, from the last cell
-- of the screen to the first, and the cursor goes on by its length.
pub terminal_print-plain :
    (s : Terminal) (text rest : List ℕ)
    → NoZero text
    → NoControl text
    → IsScreen s
    → (s' : Terminal) × (terminal_print s (text ++ 0 ∷ rest) ≡ some s')
      × (s'.video_mem ≡ written s.video_mem (cursor s) text)
      × (cursor s' ≡ (cursor s + length text) % 2000)
unfolding terminal_print
terminal_print-plain s text rest h n v =
    rw (strlen_lem text rest h) (print_loop-plain [] text (0 ∷ rest) s n v)
