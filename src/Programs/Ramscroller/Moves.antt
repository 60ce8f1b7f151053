-- ===== src/Programs/Ramscroller/Moves.antt =====
-- The program from its start to Escape.
use white_os.Base.{
  ℕ, zero, suc, ◌%◌, ◌^◌, ◌<◌, ◌≡◌, refl, sym, ap, ◌∙◌, subst, ◌≢◌, Bool, true, false, none, some,
  List, [], ◌∷◌, ◌++◌, arith, length, if◌then◌else◌, ◌==◌, Option-cases, inl, inr, ◌-◌, ◌+◌, Option,
  leb, ltb, ◌&&◌, ℕ_discrete, length-append, append_assoc,
}
use white_os.Base.Runs.{ret}
use white_os.Strings.Numbers.{value}
use white_os.Heap.{Heap}
use white_os.Kheap.{kmalloc}
use white_os.Programs.Ramscroller.{
  Scroller, print_ram, scrolled, test_malloc, go_to, handle_key, scroll_loop, ramscroller,
}
use white_os.Programs.Ramscroller.Typing.{
  Behind, access-some, and_then-ret, go_to-typed, test_malloc-typed,
}
use white_os.Programs.Ramscroller.Draws.{IsScroller, Keeps}
use white_os.Programs.Ramscroller.Screen.{print_ram-Draws}
use white_os.Programs.Ramscroller.Input.{typed, NoEnter}

-- The address behind a key that does not end the program or ask for a number: the keys 17 to 19 go
-- back by 16, 256 and 4096, where the address is a positive `intptr_t` and not below the step; the keys
-- 31 to 33 go on by as much; other keys change nothing.
abbrev pub moved : (key mem_addr : ℕ) → ℕ
moved key mem_addr =
    if leb 17 key && leb key 19
    then (if leb (16 ^ (key - 16)) mem_addr && ltb mem_addr (2 ^ 31)
        then mem_addr - 16 ^ (key - 16)
        else mem_addr)
    else (if leb 31 key && leb key 33 then (mem_addr + 16 ^ (key - 30)) % 2 ^ 32 else mem_addr)

abbrev or_same : ℕ → Option ℕ → ℕ
or_same a none = a
or_same a (some b) = b

or_same-if : (a b : ℕ) (t : Bool) → or_same a (if t then some b else none) ≡ (if t then b else a)
or_same-if a b true = refl
or_same-if a b false = refl

differ : (x y : ℕ) → x ≢ y → (x == y) ≡ false
differ x y n = ground arith

scrolled-moved : (key a : ℕ) → or_same a (scrolled key a) ≡ moved key a
unfolding scrolled
scrolled-moved key a = elim (ℕ_discrete key 17) [
  | yes e ↦ subst (λ k. or_same a (scrolled k a) ≡ moved k a) (sym e) (or_same-if a (a - 16) _)
  | no n17 ↦ elim (ℕ_discrete key 18) [
    | yes e ↦ subst (λ k. or_same a (scrolled k a) ≡ moved k a) (sym e) (or_same-if a (a - 256) _)
    | no n18 ↦ elim (ℕ_discrete key 19) [
      | yes e ↦
          subst (λ k. or_same a (scrolled k a) ≡ moved k a) (sym e) (or_same-if a (a - 4096) _)
      | no n19 ↦ elim (ℕ_discrete key 31) [
        | yes e ↦ subst (λ k. or_same a (scrolled k a) ≡ moved k a) (sym e) refl
        | no n31 ↦ elim (ℕ_discrete key 32) [
          | yes e ↦ subst (λ k. or_same a (scrolled k a) ≡ moved k a) (sym e) refl
          | no n32 ↦ elim (ℕ_discrete key 33) [
            | yes e ↦ subst (λ k. or_same a (scrolled k a) ≡ moved k a) (sym e) refl
            | no n33 ↦
                rw
                  (
                    scrolled,
                    differ key 17 n17,
                    differ key 18 n18,
                    differ key 19 n19,
                    differ key 31 n31,
                    differ key 32 n32,
                    differ key 33 n33,
                    outside key 17 n17 n18 n19,
                    outside key 31 n31 n32 n33,
                  )
                  refl
          ]
        ]
      ]
    ]
  ]
]
  where
    outside :
        (k from : ℕ)
        → k ≢ from
        → k ≢ from + 1
        → k ≢ from + 2
        → (leb from k && leb k (from + 2)) ≡ false
    outside k from x y z = ground arith

-- Keys up to Escape, and how they change the address and the heap.
pub data Keys : List ℕ → (a : ℕ) (h : Heap) (a' : ℕ) (h' : Heap) → Type 0 where
  done : (a : ℕ) (h : Heap) → Keys [] a h a h
  press :
      (key : ℕ) (keys : List ℕ) (a a' : ℕ) (h h' : Heap)
      → key ≢ 1
      → key ≢ 28
      → key ≢ 52
      → Keys keys (moved key a) h a' h'
      → Keys (key ∷ keys) a h a' h'
  jump :
      (ks keys : List ℕ) (a a' : ℕ) (h h' : Heap)
      → NoEnter ks
      → length (typed ks) < 32
      → Keys keys (value (typed ks) 0 % 2 ^ 32) h a' h'
      → Keys (28 ∷ (ks ++ 28 ∷ keys)) a h a' h'
  malloc :
      (ks keys : List ℕ) (down up ptr a a' : ℕ) (h h1 h' : Heap)
      → NoEnter ks
      → length (typed ks) < 32
      → kmalloc h (value (typed ks) 0 % 2 ^ 32) ≡ some (ptr, h1)
      → ptr < 2 ^ 32
      → Keys keys a h1 a' h'
      → Keys (52 ∷ (ks ++ 28 ∷ down ∷ up ∷ keys)) a h a' h'

-- The loop after a key that leads to a state of the loop.
scroll_loop-step :
    (ram : ℕ → ℕ) (code_address fuel key : ℕ) (keys keys' : List ℕ) (s s1 : Scroller) (more : Bool)
    → code_address < 2 ^ 32
    → handle_key key keys s ≡ ret (more, s1, keys')
    → IsScroller s1
    → (s2 : Scroller) × (scroll_loop ram code_address (suc fuel) (key ∷ keys) s
        ≡ (if more then scroll_loop ram code_address fuel keys' s2 else ret (s2, keys')))
      × (print_ram ram code_address s1 ≡ some s2)
      × Keeps s1 s2
unfolding scroll_loop
scroll_loop-step ram code_address fuel key keys keys' s s1 more c e v =
    let (s2, e2, k2) = print_ram-Draws ram code_address s1 c v in
    (
      s2,
      and_then-ret (handle_key key keys s) (more, s1, keys') _ e
          ∙ access-some (print_ram ram code_address s1) s2 _ e2,
      e2,
      k2,
    )

handle_key-scrolled :
    (key : ℕ) (keys : List ℕ) (s : Scroller)
    → key ≢ 1
    → key ≢ 28
    → key ≢ 52
    → handle_key key keys s
      ≡ ret (true, record s { mem_addr = or_same s.mem_addr (scrolled key s.mem_addr) }, keys)
unfolding handle_key
handle_key-scrolled key keys s a b c = elim (Option-cases (scrolled key s.mem_addr)) [
  | inl e ↦ rw (e, handle_key, differ key 1 a, differ key 28 b, differ key 52 c) refl
  | inr (m, e) ↦ rw (e, handle_key) refl
]

handle_key-press :
    (key : ℕ) (keys : List ℕ) (s : Scroller)
    → key ≢ 1
    → key ≢ 28
    → key ≢ 52
    → handle_key key keys s ≡ ret (true, record s { mem_addr = moved key s.mem_addr }, keys)
handle_key-press key keys s a b c =
    handle_key-scrolled key keys s a b c
    ∙ ap (λ m. ret (true, record s { mem_addr = m }, keys)) (scrolled-moved key s.mem_addr)

handle_key-jump :
    (keys keys' : List ℕ) (s s' : Scroller)
    → go_to keys s ≡ ret (s', keys')
    → handle_key 28 keys s ≡ ret (true, s', keys')
unfolding handle_key scrolled
handle_key-jump keys keys' s s' e = and_then-ret (go_to keys s) (s', keys') _ e

handle_key-malloc :
    (keys keys' : List ℕ) (s s' : Scroller)
    → test_malloc keys s ≡ ret (s', keys')
    → handle_key 52 keys s ≡ ret (true, s', keys')
unfolding handle_key scrolled
handle_key-malloc keys keys' s s' e = and_then-ret (test_malloc keys s) (s', keys') _ e

handle_key-esc : (keys : List ℕ) (s : Scroller) → handle_key 1 keys s ≡ ret (false, s, keys)
unfolding handle_key scrolled
handle_key-esc keys s = refl

module _ (ram : ℕ → ℕ) (code_address : ℕ) (c : code_address < 2 ^ 32) where
  -- The state behind the keys, its screen drawn by `print_ram` at the address.
  pub record Ended (s' : Scroller) (a : ℕ) (h : Heap) : Type 0 where
    pub behind : Behind s' a h
    pub before : Scroller
    pub drawn : print_ram ram code_address before ≡ some s'
    pub drawn_at : before.mem_addr ≡ a

  -- One round, and the rest of the keys from the state that it leads to.
  round_then :
      (fuel key : ℕ) (keys keys' rest : List ℕ) (s s1 : Scroller) (a a' : ℕ) (h h' : Heap)
      → handle_key key keys s ≡ ret (true, s1, keys')
      → Behind s1 a h
      → ((s2 : Scroller)
          → Behind s2 a h
          → (s' : Scroller) × (scroll_loop ram code_address fuel keys' s2 ≡ ret (s', rest))
            × Ended s' a' h')
      → (s' : Scroller) × (scroll_loop ram code_address (suc fuel) (key ∷ keys) s ≡ ret (s', rest))
        × Ended s' a' h'
  round_then fuel key keys keys' rest s s1 a a' h h' e b f =
      let (s2, e2, pic, k2) =
        scroll_loop-step ram code_address fuel key keys keys' s s1 true c e b.valid in
      let (s', e', w) = f s2 (record {
        valid = k2.valid;
        at = k2.mem_addr_same ∙ b.at;
        allocated = k2.heap_same ∙ b.allocated;
      }) in
      (s', e2 ∙ e', w)

  scroll_loop-Keys :
      (fuel : ℕ) (rest : List ℕ) (s : Scroller) {keys : List ℕ} {a a' : ℕ} {h h' : Heap}
      → Keys keys a h a' h'
      → length keys < fuel
      → Behind s a h
      → (s' : Scroller) × (scroll_loop ram code_address fuel (keys ++ 1 ∷ rest) s ≡ ret (s', rest))
        × Ended s' a' h'
  scroll_loop-Keys zero rest s k l b = absurd (omega arith)
  scroll_loop-Keys (suc fuel) rest s (done a h) l b =
      let (s2, e2, pic, k2) =
        scroll_loop-step ram code_address fuel 1 rest rest s s false c (handle_key-esc rest s)
          b.valid in
      (
        s2,
        e2,
        record {
          behind = record {
            valid = k2.valid;
            at = k2.mem_addr_same ∙ b.at;
            allocated = k2.heap_same ∙ b.allocated;
          };
          before = s;
          drawn = pic;
          drawn_at = b.at;
        },
      )
  scroll_loop-Keys (suc fuel) rest s (press key keys a a' h h' x y z k) l b =
      round_then fuel key (keys ++ 1 ∷ rest) (keys ++ 1 ∷ rest) rest s
        (record s { mem_addr = moved key s.mem_addr }) (moved key a) a' h h'
        (handle_key-press key (keys ++ 1 ∷ rest) s x y z)
        (record {
          valid = record { screen = b.valid.screen; buffer = b.valid.buffer };
          at = ap (moved key) b.at;
          allocated = b.allocated;
        })
        λ s2 b2. scroll_loop-Keys fuel rest s2 k (omega (arith, l)) b2
  scroll_loop-Keys (suc fuel) rest s (jump ks keys a a' h h' n d k) l b =
      let (s1, e1, b1) = go_to-typed ks (keys ++ 1 ∷ rest) s n d b.valid in
      subst
        (λ xs.
          (s' : Scroller) × (scroll_loop ram code_address (suc fuel) (28 ∷ xs) s ≡ ret (s', rest))
          × Ended s' a' h')
        (sym (append_assoc ks (28 ∷ keys) (1 ∷ rest)))
        (round_then fuel 28 (ks ++ 28 ∷ (keys ++ 1 ∷ rest)) (keys ++ 1 ∷ rest) rest s s1
          (value (typed ks) 0 % 2 ^ 32) a' h h'
          (handle_key-jump (ks ++ 28 ∷ (keys ++ 1 ∷ rest)) (keys ++ 1 ∷ rest) s s1 e1)
          (record { valid = b1.valid; at = b1.at; allocated = b1.allocated ∙ b.allocated })
          λ s2 b2.
            scroll_loop-Keys fuel rest s2 k (omega (arith, l, length-append ks (28 ∷ keys))) b2)
  scroll_loop-Keys (suc fuel) rest s (malloc ks keys down up ptr a a' h h1 h' n d m p k) l b =
      let (s1, e1, b1) =
        test_malloc-typed ks (keys ++ 1 ∷ rest) down up ptr h1 s n d
          (ap (λ x. kmalloc x (value (typed ks) 0 % 2 ^ 32)) b.allocated ∙ m) p b.valid in
      subst
        (λ xs.
          (s' : Scroller) × (scroll_loop ram code_address (suc fuel) (52 ∷ xs) s ≡ ret (s', rest))
          × Ended s' a' h')
        (sym (append_assoc ks (28 ∷ down ∷ up ∷ keys) (1 ∷ rest)))
        (round_then fuel 52 (ks ++ 28 ∷ down ∷ up ∷ (keys ++ 1 ∷ rest)) (keys ++ 1 ∷ rest) rest s s1
          a a' h1 h'
          (handle_key-malloc (ks ++ 28 ∷ down ∷ up ∷ (keys ++ 1 ∷ rest)) (keys ++ 1 ∷ rest) s s1 e1)
          (record { valid = b1.valid; at = b1.at ∙ b.at; allocated = b1.allocated })
          λ s2 b2.
            scroll_loop-Keys fuel rest s2 k
              (omega (arith, l, length-append ks (28 ∷ down ∷ up ∷ keys))) b2)

  -- The program returns at Escape, whatever is scrolled, typed in and allocated before it, given a
  -- round for each key: from a valid screen and a buffer of 32 bytes, for every content of the memory,
  -- with `print_ram` at a 32-bit address, each number of at most 31 digits and each allocation
  -- answered with a 32-bit address. The address then is the one that the keys lead to from 0, the
  -- screen is drawn by `print_ram` at this address, the heap is the one that the allocations leave,
  -- and the keys behind Escape are left.
  pub ramscroller-Keys :
      {keys : List ℕ} {a' : ℕ} {h' : Heap} (rest : List ℕ) (fuel : ℕ) (s : Scroller)
      → Keys keys 0 s.kernel_heap a' h'
      → length keys < fuel
      → IsScroller s
      → (s' : Scroller) × (ramscroller ram code_address fuel (keys ++ 1 ∷ rest) s ≡ ret (s', rest))
        × Ended s' a' h'
  unfolding ramscroller
  ramscroller-Keys {keys} rest fuel s k l v =
      let (s1, e1, k1) =
        print_ram-Draws ram code_address (record s { mem_addr = 0 }) c
          (record { screen = v.screen; buffer = v.buffer }) in
      let (s', e', w) =
        scroll_loop-Keys fuel rest s1 k l
          (record { valid = k1.valid; at = k1.mem_addr_same; allocated = k1.heap_same }) in
      (
        s',
        access-some (print_ram ram code_address (record s { mem_addr = 0 })) s1
              (λ s1. scroll_loop ram code_address fuel (keys ++ 1 ∷ rest) s1) e1
            ∙ e',
        w,
      )
