-- ===== src/Programs/Ramscroller/Draws.antt =====
-- Calls that draw: what they leave as it was, and how they follow one another.
use white_os.Base.{
  ℕ, zero, suc, ◌/◌, ◌^◌, ◌<◌, ◌≡◌, refl, sym, ap, ◌∙◌, subst, true, Option, none, some, List, [],
  ◌∷◌, ◌++◌, arith, length, drop, length-append, length-drop, ◌>>=◌,
}
use white_os.Strings.Length.{NoZero, NoZero-append}
use white_os.Strings.Hex.{hex_digits, length-hex_digits, to_string_hex_lem}
use white_os.Terminal.{Terminal, terminal_print, terminal_clear, terminal_gotoxy}
use white_os.Terminal.Cursor.{IsScreen, Shows, terminal_print-Shows}
use white_os.Terminal.Clear.{
  terminal_clear-IsScreen, terminal_gotoxy-IsScreen, terminal_putchar-IsScreen,
}
use white_os.Programs.Texts.{no_zero, NoZero-no_zero}
use white_os.Programs.Ramscroller.{
  Scroller, with_terminal, print_buff, print_text, hex_buff, put_at, word_of,
}

-- A screen, and a buffer of 32 bytes.
pub record IsScroller (s : Scroller) : Type 0 where
  pub screen : IsScreen s.terminal
  pub buffer : length s.numstr_buff ≡ 32

-- A call that succeeds: the screen and the buffer are as they must be, and the address and the
-- heap as they were.
pub record Keeps (s s' : Scroller) : Type 0 where
  pub valid : IsScroller s'
  pub mem_addr_same : s'.mem_addr ≡ s.mem_addr
  pub heap_same : s'.kernel_heap ≡ s.kernel_heap

abbrev pub Draws : Option Scroller → Scroller → Type 0
Draws r s = (s' : Scroller) × (r ≡ some s') × Keeps s s'

Keeps-trans : (s t u : Scroller) → Keeps s t → Keeps t u → Keeps s u
Keeps-trans s t u h k = record {
  valid = k.valid;
  mem_addr_same = k.mem_addr_same ∙ h.mem_addr_same;
  heap_same = k.heap_same ∙ h.heap_same;
}

-- Two calls in a row.
pub Draws-then :
    (r : Option Scroller) (s : Scroller) (next : Scroller → Option Scroller)
    → Draws r s
    → ((t : Scroller) → IsScroller t → Draws (next t) t)
    → Draws (r >>= next) s
Draws-then r s next (t, e, k) h =
    let (u, e', k') = h t k.valid in (u, ap (λ x. x >>= next) e ∙ e', Keeps-trans s t u k k')

-- A change of the terminal to another screen.
pub Draws-terminal :
    (s : Scroller) (r : Option Terminal)
    → IsScroller s
    → Shows r
    → (t : Terminal) × (r ≡ some t) × Keeps s (with_terminal s t)
Draws-terminal s none v h = absurd h
Draws-terminal s (some t) v h = (
  t,
  refl,
  record {
    valid = record { screen = h; buffer = v.buffer };
    mem_addr_same = refl;
    heap_same = refl;
  },
)

print_text-Draws :
    (s : Scroller) (cs : List ℕ) → NoZero cs → IsScroller s → Draws (print_text s (cs ++ 0 ∷ [])) s
unfolding print_text
print_text-Draws s cs h v =
    let (t, e, k) =
      Draws-terminal s (terminal_print s.terminal (cs ++ 0 ∷ [])) v
        (terminal_print-Shows s.terminal cs [] h v.screen) in
    (with_terminal s t, rw e refl, k)

-- A text without a null byte, as a test finds.
pub print_line :
    (s : Scroller) (cs : List ℕ)
    → no_zero cs ≡ true
    → IsScroller s
    → Draws (print_text s (cs ++ 0 ∷ [])) s
print_line s cs e v = print_text-Draws s cs (NoZero-no_zero cs e) v

print_buff-Draws :
    (s : Scroller) (cs rest : List ℕ)
    → s.numstr_buff ≡ cs ++ 0 ∷ rest
    → NoZero cs
    → IsScroller s
    → Draws (print_buff s) s
unfolding print_buff
print_buff-Draws s cs rest e h v =
    let (t, f, k) = Draws-terminal s (terminal_print s.terminal s.numstr_buff) v (
      subst (λ xs. Shows (terminal_print s.terminal xs)) (sym e)
        (terminal_print-Shows s.terminal cs rest h v.screen)) in
    (with_terminal s t, rw f refl, k)

pub NoZero-hex_digits : (k number : ℕ) → NoZero (hex_digits k number)
NoZero-hex_digits zero number = tt
NoZero-hex_digits (suc k) number =
    NoZero-append (hex_digits k (number / 16)) _ (NoZero-hex_digits k (number / 16))
      (ground arith, tt)

-- The number stands in the buffer as "0x" and eight digits.
pub hex_buff_lem :
    (s : Scroller) (number : ℕ)
    → number < 2 ^ 32
    → IsScroller s
    → (s' : Scroller) × (hex_buff s number ≡ some s')
      × Keeps s s'
      × (s'.numstr_buff ≡ (b'0' ∷ b'x' ∷ hex_digits 8 number) ++ 0 ∷ drop 11 s.numstr_buff)
unfolding hex_buff
hex_buff_lem s number h v = (
  record s { numstr_buff = (b'0' ∷ b'x' ∷ hex_digits 8 number) ++ 0 ∷ drop 11 s.numstr_buff },
  rw (to_string_hex_lem number s.numstr_buff h (omega (arith, v.buffer))).0 refl,
  record {
    valid = record {
      screen = v.screen;
      buffer = omega (
        arith,
        length-append (hex_digits 8 number) (0 ∷ drop 11 s.numstr_buff),
        length-hex_digits 8 number,
        length-drop 11 s.numstr_buff,
        v.buffer,
      );
    };
    mem_addr_same = refl;
    heap_same = refl;
  },
  refl,
)

pub hex_buff-then :
    (s : Scroller) (number : ℕ) (next : Scroller → Option Scroller)
    → number < 2 ^ 32
    → IsScroller s
    → ((s1 : Scroller)
        → Keeps s s1
        → s1.numstr_buff ≡ (b'0' ∷ b'x' ∷ hex_digits 8 number) ++ 0 ∷ drop 11 s.numstr_buff
        → Draws (next s1) s1)
    → Draws (hex_buff s number >>= next) s
hex_buff-then s number next h v f =
    let (s1, e1, k1, b1) = hex_buff_lem s number h v in
    let (u, e, k) = f s1 k1 b1 in (u, ap (λ r. r >>= next) e1 ∙ e, Keeps-trans s s1 u k1 k)

-- Printing what `hex_buff` has left in the buffer.
pub print_hex-Draws :
    (s : Scroller) (number : ℕ) (rest : List ℕ)
    → s.numstr_buff ≡ (b'0' ∷ b'x' ∷ hex_digits 8 number) ++ 0 ∷ rest
    → IsScroller s
    → Draws (print_buff s) s
print_hex-Draws s number rest e v =
    print_buff-Draws s (b'0' ∷ b'x' ∷ hex_digits 8 number) rest e
      (omega arith, (omega arith, NoZero-hex_digits 8 number)) v

pub goto-IsScroller :
    (s : Scroller) (x y : ℕ)
    → x < 80
    → y < 25
    → IsScroller s
    → IsScroller (with_terminal s (terminal_gotoxy s.terminal x y))
goto-IsScroller s x y h k v = record {
  screen = terminal_gotoxy-IsScreen s.terminal x y h k v.screen;
  buffer = v.buffer;
}

pub put_at-Draws :
    (s : Scroller) (x y c : ℕ) → x < 80 → y < 25 → IsScroller s → Draws (put_at s x y c) s
unfolding put_at
put_at-Draws s x y c h k v =
    let (t, e, w) =
      terminal_putchar-IsScreen (terminal_gotoxy s.terminal x y) c
        (terminal_gotoxy-IsScreen s.terminal x y h k v.screen) in
    (
      with_terminal s t,
      rw e refl,
      record {
        valid = record { screen = w; buffer = v.buffer };
        mem_addr_same = refl;
        heap_same = refl;
      },
    )

pub word_of-lt : (ram : ℕ → ℕ) (a : ℕ) → word_of ram a < 2 ^ 32
word_of-lt ram a = omega arith

-- A change of the terminal alone, in front of a call.
pub Draws-from :
    (r : Option Scroller) (s : Scroller) (t : Terminal) → Draws r (with_terminal s t) → Draws r s
Draws-from r s t (u, e, k) =
    (u, e, record { valid = k.valid; mem_addr_same = k.mem_addr_same; heap_same = k.heap_same })

-- A call of the terminal that shows a screen.
pub terminal-then :
    (s : Scroller) (r : Option Terminal) (next : Terminal → Option Scroller)
    → IsScroller s
    → Shows r
    → ((t : Terminal) → IsScroller (with_terminal s t) → Draws (next t) (with_terminal s t))
    → Draws (r >>= next) s
terminal-then s r next v h f =
    let (t, e, k) = Draws-terminal s r v h in
    let (u, e', k') = f t k.valid in
    (u, ap (λ x. x >>= next) e ∙ e', Keeps-trans s (with_terminal s t) u k k')

pub terminal_clear-Shows : (t : Terminal) → IsScreen t → Shows (terminal_clear t)
terminal_clear-Shows t v = let (t', e, w) = terminal_clear-IsScreen t v in subst Shows (sym e) w
