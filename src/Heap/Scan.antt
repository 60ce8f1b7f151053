-- ===== src/Heap/Scan.antt =====
-- `heap_get_start_block`: the search for a run of free entries.
use white_os.Base.{
  ℕ, suc, ◌+◌, ◌-◌, ◌≤◌, ◌<◌, ◌≡◌, ◌≢◌, refl, ap, sym, ◌∙◌, ◌⊎◌, inl, inr, Bool, true, false, List,
  [], ◌∷◌, Option, none, some, arith, length, get_or, ◌==◌, if◌then◌else◌, bit_and, Bool-cases,
  ==_iff, dec_le, ℕ_discrete,
}
use white_os.Heap.{start_loop, or_else}

-- Entry `k` is free; there is none behind the table.
unfoldable pub is_free : List ℕ → ℕ → Bool
is_free entries k = bit_and (get_or entries k 1) 0x0f == 0

-- The `n` entries from `s` on are free.
abbrev pub Fits : List ℕ → ℕ → ℕ → Type 0
Fits entries n s = (k : ℕ) → s ≤ k → k < s + n → is_free entries k ≡ true

-- One of them is taken.
abbrev pub Blocked : List ℕ → ℕ → ℕ → Type 0
Blocked entries n s = (k : ℕ) × (s ≤ k) × (k < s + n) × (is_free entries k ≡ false)

-- What the loop knows at index `i`: the last `bc` entries are free, and no run of `n` ends before.
record Inv (table : List ℕ) (n i bc : ℕ) (bs : Option ℕ) : Type 0 where
  short : bc < n
  start : bs ≡ (if bc == 0 then none else some (i - bc))
  within : bc ≤ i
  run : (k : ℕ) → i ≤ k + bc → k < i → is_free table k ≡ true
  edge : (bc ≡ i) ⊎ (is_free table (i - bc - 1) ≡ false)
  before : (s : ℕ) → s + n ≤ i → Blocked table n s

-- The outcome over a table of `len` entries: the first run that fits; or none fits, and the result
-- is the start of the free entries at the end of the table, if there are any.
pub data Outcome (table : List ℕ) (n len : ℕ) : Option ℕ → Type 0 where
  found :
      (s : ℕ)
      → s + n ≤ len
      → Fits table n s
      → ((s' : ℕ) → s' < s → Blocked table n s')
      → Outcome table n len (some s)
  missing :
      (bc : ℕ)
      → bc < n
      → bc ≤ len
      → ((k : ℕ) → len ≤ k + bc → k < len → is_free table k ≡ true)
      → ((bc ≡ len) ⊎ (is_free table (len - bc - 1) ≡ false))
      → ((s : ℕ) → s + n ≤ len → Blocked table n s)
      → Outcome table n len (if bc == 0 then none else some (len - bc))

Inv-taken :
    (table : List ℕ) (n i bc : ℕ) (bs : Option ℕ)
    → Inv table n i bc bs
    → is_free table i ≡ false
    → Inv table n (i + 1) 0 none
Inv-taken table n i bc bs v t = record {
  short = omega (arith, v.short);
  start = refl;
  within = omega arith;
  run = λ k h l. absurd (omega arith);
  edge = inr (rw back t);
  before = λ s h. elim (dec_le (s + n) i) [
    | yes p ↦ v.before s p
    | no p ↦ (i, omega (arith, v.short), omega arith, t)
  ];
}
  where
    back : i + 1 - 0 - 1 ≡ i
    back = omega arith

Inv-end : (table : List ℕ) (n i bc : ℕ) (bs : Option ℕ) → Inv table n i bc bs → Outcome table n i bs
Inv-end table n i bc bs v = rw v.start (missing bc v.short v.within v.run v.edge v.before)

module _ (table : List ℕ) (n i bc : ℕ) (bs : Option ℕ) (v : Inv table n i bc bs)
    (t : is_free table i ≡ true) where
  or_else-start : or_else bs i ≡ i - bc
  or_else-start = ground (arith, v.start)

  run-suc : (k : ℕ) → i + 1 ≤ k + (bc + 1) → k < i + 1 → is_free table k ≡ true
  run-suc k h l = elim (ℕ_discrete k i) [
    | yes p ↦ rw p t
    | no p ↦ v.run k (omega arith) (omega arith)
  ]

  before-suc : bc + 1 ≢ n → (s : ℕ) → s + n ≤ i + 1 → Blocked table n s
  before-suc ne s h = elim (dec_le (s + n) i) [
    | yes p ↦ v.before s p
    | no p ↦ elim v.edge [
      | inl e ↦ absurd (omega (arith, v.short))
      | inr e ↦ (i - bc - 1, omega (arith, v.short), omega (arith, v.short, v.within), e)
    ]
  ]

  Inv-more : bc + 1 ≢ n → Inv table n (i + 1) (bc + 1) (some (or_else bs i))
  Inv-more ne = record {
    short = omega (arith, v.short);
    start = rw or_else-start (ground arith);
    within = omega (arith, v.within);
    run = run-suc;
    edge = elim v.edge [ inl e ↦ inl (omega arith) | inr e ↦ inr (rw same e) ];
    before = before-suc ne;
  }
    where
      same : i + 1 - (bc + 1) - 1 ≡ i - bc - 1
      same = omega arith

  Inv-found : (len : ℕ) → bc + 1 ≡ n → i < len → Outcome table n len (some (or_else bs i))
  Inv-found len e l = rw or_else-start (
      found (i - bc) (omega (arith, v.within))
        (λ k h h'. run-suc k (omega arith) (omega (arith, v.within)))
        (λ s' h. v.before s' (omega (arith, v.within))))

get_or-head :
    (table rest : List ℕ) (i entry : ℕ)
    → ((k : ℕ) → get_or (entry ∷ rest) k 1 ≡ get_or table (i + k) 1)
    → entry ≡ get_or table i 1
get_or-head table rest i entry same = same 0 ∙ ap (λ k. get_or table k 1) (omega arith)

start_loop-Outcome :
    (table rest : List ℕ) (n i bc : ℕ) (bs : Option ℕ)
    → ((k : ℕ) → get_or rest k 1 ≡ get_or table (i + k) 1)
    → Inv table n i bc bs
    → Outcome table n (i + length rest) (start_loop rest i bc bs n)
unfolding start_loop
start_loop-Outcome table [] n i bc bs same v = rw e (Inv-end table n i bc bs v)
  where
    e : i + 0 ≡ i
    e = omega arith
start_loop-Outcome table (entry ∷ rest) n i bc bs same v =
    elim (Bool-cases (bit_and entry 0x0f == 0)) [
      | inl f ↦ elim (Bool-cases (bc + 1 == n)) [
        | inl e ↦
            rw (f, e)
              (Inv-found table n i bc bs v (read ∙ f) (i + suc (length rest))
                ((==_iff (bc + 1) n).0 e) (omega arith))
        | inr e ↦
            rw (f, e, len)
              (start_loop-Outcome table rest n (i + 1) (bc + 1) (some (or_else bs i)) later
                (Inv-more table n i bc bs v (read ∙ f) (λ q. ground arith)))
      ]
      | inr t ↦
          rw (t, len)
            (start_loop-Outcome table rest n (i + 1) 0 none later
              (Inv-taken table n i bc bs v (read ∙ t)))
    ]
  where
    len : i + suc (length rest) ≡ i + 1 + length rest
    len = omega arith

    read : is_free table i ≡ (bit_and entry 0x0f == 0)
    read =
        unfold is_free in ap (λ e. bit_and e 0x0f == 0) (sym (get_or-head table rest i entry same))

    later : (k : ℕ) → get_or rest k 1 ≡ get_or table (i + 1 + k) 1
    later k = same (suc k) ∙ ap (λ j. get_or table j 1) (omega arith)

-- The whole search, for at least one block: it returns the first run of `n` free entries; without
-- one it returns the start of the free entries at the end of the table, or fails if there are none.
pub start_loop_lem :
    (table : List ℕ) (n : ℕ) → 0 < n → Outcome table n (length table) (start_loop table 0 0 none n)
start_loop_lem table n h = rw (← e) (
    start_loop-Outcome table table n 0 0 none (λ k. ap (λ j. get_or table j 1) (omega arith))
      (record {
        short = h;
        start = refl;
        within = omega arith;
        run = λ k p l. absurd (omega arith);
        edge = inl refl;
        before = λ s p. absurd (omega arith);
      }))
  where
    e : 0 + length table ≡ length table
    e = omega arith
