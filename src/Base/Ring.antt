-- ===== src/Base/Ring.antt =====
-- Rings of 100 slots whose empty slots are marked by a kind of 0, as a queue. They stand for the
-- event queue of src/whitelib/system/system.c and the exception table of src/idt/idt.c.
use white_os.Base.{
  ℕ, zero, suc, ◌+◌, ◌%◌, ◌≤◌, ◌<◌, ◌≡◌, sym, ap, ◌∙◌, ◌≢◌, List, [], ◌∷◌, ◌++◌, arith, ℕ_discrete,
  length, set, get_or, length-set, get_or-append_left, length-snoc, get_or-set_self, get_or-set_ne,
  get_or-snoc,
}

abbrev pub ring_size : ℕ
ring_size = 100

module _ {A : Type 0} (kind : A → ℕ) (d : A) where
  -- From `head` on the slots hold the entries of `q`, none of kind 0, and then empty slots.
  pub record Reads (buf : List A) (head : ℕ) (q : List A) : Type 0 where
    pub size : length buf ≡ 100
    pub head_in : head < 100
    pub room : length q ≤ 100
    pub stored : (k : ℕ) → k < length q → get_or buf ((head + k) % 100) d ≡ get_or q k d
    pub empty : (k : ℕ) → length q ≤ k → k < 100 → kind (get_or buf ((head + k) % 100) d) ≡ 0
    pub live : (k : ℕ) → k < length q → kind (get_or q k d) ≢ 0

  -- The slot after the entries is the one that is written next.
  pub record IsRing (buf : List A) (head tail : ℕ) (q : List A) : Type 0 where
    pub reads : Reads buf head q
    pub tail_at : tail ≡ (head + length q) % 100

  pub Reads-front :
      {buf : List A} {head : ℕ} {x : A} {q : List A}
      → Reads buf head (x ∷ q)
      → get_or buf head d ≡ x
  Reads-front {buf} {head} r = ap (λ i. get_or buf i d) (sym first) ∙ r.stored 0 (omega arith)
    where
      first : (head + 0) % 100 ≡ head
      first = omega (arith, r.head_in)

  pub Reads-nil : {buf : List A} {head : ℕ} → Reads buf head [] → kind (get_or buf head d) ≡ 0
  Reads-nil {buf} {head} r =
      ap (λ i. kind (get_or buf i d)) (sym first) ∙ r.empty 0 (omega arith) (omega arith)
    where
      first : (head + 0) % 100 ≡ head
      first = omega (arith, r.head_in)

  -- Clearing the first slot and going on takes the first entry.
  pub Reads-pop :
      {buf : List A} {head : ℕ} {x : A} {q : List A} (y : A)
      → kind y ≡ 0
      → Reads buf head (x ∷ q)
      → Reads (set buf head y) ((head + 1) % 100) q
  Reads-pop {buf} {head} {x} {q} y e r = record {
    size = length-set buf head y ∙ r.size;
    head_in = omega arith;
    room = omega (arith, r.room);
    stored = λ k h.
        ap (λ i. get_or (set buf head y) i d) (next k)
        ∙ get_or-set_ne buf head ((head + suc k) % 100) y d (apart k (omega (arith, r.room)))
        ∙ r.stored (suc k) (omega arith);
    empty = λ k l u. elim (ℕ_discrete k 99) [
      | yes z ↦
          ap (λ i. kind (get_or (set buf head y) i d)) (round k z)
          ∙ ap kind (get_or-set_self buf head y d (omega (arith, r.size, r.head_in)))
          ∙ e
      | no z ↦
          ap (λ i. kind (get_or (set buf head y) i d)) (next k)
          ∙ ap kind (get_or-set_ne buf head ((head + suc k) % 100) y d (apart k (omega arith)))
          ∙ r.empty (suc k) (omega arith) (omega arith)
    ];
    live = λ k h. r.live (suc k) (omega arith);
  }
    where
      next : (k : ℕ) → ((head + 1) % 100 + k) % 100 ≡ (head + suc k) % 100
      next k = omega arith

      apart : (k : ℕ) → suc k < 100 → ¬ (head ≡ (head + suc k) % 100)
      apart k h = omega (arith, r.head_in)

      round : (k : ℕ) → k ≡ 99 → ((head + 1) % 100 + k) % 100 ≡ head
      round k z = omega (arith, r.head_in)

  -- Writing the slot after the entries appends one, if a slot is free.
  pub Reads-push :
      {buf : List A} {head : ℕ} {q : List A} (x : A)
      → kind x ≢ 0
      → length q < 100
      → Reads buf head q
      → Reads (set buf ((head + length q) % 100) x) head (q ++ x ∷ [])
  Reads-push {buf} {head} {q} x ne h r = record {
    size = length-set buf _ x ∙ r.size;
    head_in = r.head_in;
    room = omega (arith, length-snoc q x);
    stored = λ k l. elim (ℕ_discrete k (length q)) [
      | yes e ↦
          rw e (get_or-set_self buf tail x d (omega (arith, r.size)) ∙ sym (get_or-snoc q x d))
      | no e ↦
          get_or-set_ne buf tail ((head + k) % 100) x d (apart k (omega (arith, length-snoc q x)))
          ∙ r.stored k (omega (arith, length-snoc q x))
          ∙ sym (get_or-append_left q (x ∷ []) k d (omega (arith, length-snoc q x)))
    ];
    empty = λ k l u.
        ap kind (
          get_or-set_ne buf tail ((head + k) % 100) x d
            (behind k (omega (arith, length-snoc q x)) u))
        ∙ r.empty k (omega (arith, length-snoc q x)) u;
    live = λ k l. elim (ℕ_discrete k (length q)) [
      | yes e ↦ rw (e, get_or-snoc) ne
      | no e ↦
          rw (get_or-append_left q (x ∷ []) k d (omega (arith, length-snoc q x)))
            (r.live k (omega (arith, length-snoc q x)))
    ];
  }
    where
      tail : ℕ
      tail = (head + length q) % 100

      apart : (k : ℕ) → k < length q → ¬ (tail ≡ (head + k) % 100)
      apart k l = omega arith

      behind : (k : ℕ) → length q < k → k < 100 → ¬ (tail ≡ (head + k) % 100)
      behind k l u = omega arith

  -- In a full ring the write replaces the first entry, and the others follow it.
  pub Reads-full :
      {buf : List A} {head : ℕ} {x : A} {q : List A} (y : A)
      → kind y ≢ 0
      → length (x ∷ q) ≡ 100
      → Reads buf head (x ∷ q)
      → Reads (set buf ((head + length (x ∷ q)) % 100) y) head (y ∷ q)
  Reads-full {buf} {head} {x} {q} y ne h r = rw at (record {
    size = length-set buf head y ∙ r.size;
    head_in = r.head_in;
    room = r.room;
    stored = stored;
    empty = λ k l u. absurd (omega arith);
    live = live;
  })
    where
      at : (head + length (x ∷ q)) % 100 ≡ head
      at = omega (arith, r.head_in)

      first : (head + 0) % 100 ≡ head
      first = omega (arith, r.head_in)

      apart : (k : ℕ) → suc k < 100 → ¬ (head ≡ (head + suc k) % 100)
      apart k l = omega (arith, r.head_in)

      stored :
          (k : ℕ)
          → k < suc (length q)
          → get_or (set buf head y) ((head + k) % 100) d ≡ get_or (y ∷ q) k d
      stored zero l = rw first (get_or-set_self buf head y d (omega (arith, r.size, r.head_in)))
      stored (suc k) l =
          get_or-set_ne buf head ((head + suc k) % 100) y d (apart k (omega arith))
          ∙ r.stored (suc k) l

      live : (k : ℕ) → k < suc (length q) → kind (get_or (y ∷ q) k d) ≢ 0
      live zero l = ne
      live (suc k) l = r.live (suc k) l
