-- ===== src/Idt/Exceptions.antt =====
-- The table of exceptions as a queue of at most 100 numbers, each plus one.
use white_os.Base.{
  ℕ, ◌+◌, ◌%◌, ◌<◌, ◌≡◌, refl, ◌≢◌, false, Option, none, some, List, [], ◌∷◌, ◌++◌, arith, ◌==◌,
  length, set, store, store_of_lt, length-snoc, get_elem?-eq-get_or,
}
use white_os.Base.Ring.{IsRing, Reads-front, Reads-nil, Reads-pop, Reads-push}
use white_os.Idt.{Idt, exception_handler, fetch_exception}

abbrev pub same : ℕ → ℕ
same n = n

-- The table holds the numbers of `q`, oldest first.
abbrev pub IsTable : Idt → List ℕ → Type 0
IsTable s q = IsRing same 0 s.exception_table s.exception_table_head s.exception_table_tail q

-- A call that succeeds with a table that holds `q`.
abbrev pub Holds : List ℕ → Option Idt → Type 0
Holds q none = ⊥
Holds q (some s) = IsTable s q

-- An exception while fewer than 100 wait goes to the end of the queue, and nothing is written
-- outside the table.
pub exception_handler-Holds :
    (s : Idt) (q : List ℕ) (etype : ℕ)
    → IsTable s q
    → length q < 100
    → Holds (q ++ (etype + 1) ∷ []) (exception_handler s etype)
unfolding exception_handler
exception_handler-Holds s q etype v h = rw stored (record {
  reads = Reads-push same 0 (etype + 1) (omega arith) h v.reads;
  tail_at = omega (arith, length-snoc q (etype + 1), v.tail_at);
})
  where
    stored :
        store s.exception_table s.exception_table_tail (etype + 1)
        ≡ some (set s.exception_table ((s.exception_table_head + length q) % 100) (etype + 1))
    stored = rw v.tail_at (
        store_of_lt s.exception_table ((s.exception_table_head + length q) % 100) (etype + 1)
          (omega (arith, v.reads.size)))

-- What `fetch_exception` is to do with a queue: the number returned and the queue left.
abbrev pub Fetched : Idt → List ℕ → Option (ℕ × Idt) → Type 0
Fetched s [] r = r ≡ some (0, s)
Fetched s (n ∷ q) r = (s' : Idt) × (r ≡ some (n, s')) × IsTable s' q

-- With exceptions waiting, `fetch_exception` returns and takes the oldest; with none it returns 0 and
-- changes nothing.
pub fetch_exception_lem : (s : Idt) (q : List ℕ) → IsTable s q → Fetched s q (fetch_exception s)
unfolding fetch_exception
fetch_exception_lem s [] v =
    rw
      (
        get_elem?-eq-get_or s.exception_table s.exception_table_head 0
            (omega (arith, v.reads.size, v.reads.head_in)),
        Reads-nil same 0 v.reads,
      )
      refl
fetch_exception_lem s (n ∷ q) v = (
  record s {
    exception_table = set s.exception_table s.exception_table_head 0;
    exception_table_head = (s.exception_table_head + 1) % 100;
  },
  rw
      (
        get_elem?-eq-get_or s.exception_table s.exception_table_head 0
            (omega (arith, v.reads.size, v.reads.head_in)),
        Reads-front same 0 v.reads,
        positive n (v.reads.live 0 (omega arith)),
        store_of_lt s.exception_table s.exception_table_head 0
            (omega (arith, v.reads.size, v.reads.head_in)),
      )
      refl,
  record { reads = Reads-pop same 0 0 refl v.reads; tail_at = omega (arith, v.tail_at) },
)
  where
    positive : (n : ℕ) → n ≢ 0 → (n == 0) ≡ false
    positive n h = ground arith
