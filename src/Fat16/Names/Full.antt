-- ===== src/Fat16/Names/Full.antt =====
-- The full name of an item.
use white_os.Base.{
  ℕ, zero, suc, ◌+◌, ◌-◌, ◌*◌, ◌<◌, ◌≡◌, refl, sym, ap, ap₂, ◌∙◌, subst, ◌≢◌, ◌⊎◌, inl, inr, false,
  Option, none, some, List, [], ◌∷◌, ◌++◌, append-nil, append_assoc, arith, ◌==◌, length, get_elem?,
  drop, replicate, length-append, store, store-append, snoc-append, length-snoc, drop_self,
}
use white_os.Memory.{memset}
use white_os.Memory.Laws.{memset_lem}
use white_os.Fat16.Names.{fat16_to_proper_string, fat16_get_full_relative_filename}

-- A byte that ends a name.
abbrev pub Ends : ℕ → Type 0
Ends c = (c ≡ 0) ⊎ (c ≡ b' ')

-- No byte ends the name.
abbrev pub Plain : List ℕ → Type 0
Plain [] = Unit
Plain (c ∷ cs) = (c ≢ 0) × (c ≢ b' ') × Plain cs

other : (c k : ℕ) → c ≢ k → (c == k) ≡ false
other c k h = ground arith

abbrev pub zeros : ℕ → List ℕ
zeros k = replicate k 0

zeros_pos : (k : ℕ) → 0 < k → zeros k ≡ 0 ∷ zeros (k - 1)
zeros_pos zero h = absurd (omega arith)
zeros_pos (suc k) h = ap (λ n. 0 ∷ zeros n) k-eq
  where
    k-eq : k ≡ suc k - 1
    k-eq = omega arith

-- Equal results of a copy.
placed :
    (pre text : List ℕ) (i j m n : ℕ)
    → i ≡ j
    → m ≡ n
    → ◌≡◌ {A = Option (ℕ × List ℕ)}
        (some (i, pre ++ (text ++ zeros m)))
        (some (j, pre ++ (text ++ zeros n)))
placed pre text i j m n e f = ap₂ (λ a b. some (a, pre ++ (text ++ zeros b))) e f

-- Over a buffer of zeros, a name up to its end.
to_proper_string-text :
    (text rest pre : List ℕ) (c i k : ℕ)
    → Ends c
    → Plain text
    → length pre ≡ i
    → length text < k
    → fat16_to_proper_string (text ++ c ∷ rest) i (pre ++ zeros k)
      ≡ some (i + length text, pre ++ (text ++ zeros (k - length text)))
unfolding fat16_to_proper_string
to_proper_string-text [] rest pre c i zero z h e l = absurd (omega arith)
to_proper_string-text [] rest pre c i (suc k) (inl z) h e l =
    rw z (placed pre [] i (i + 0) (suc k) (suc k - 0) (omega arith) (omega arith))
to_proper_string-text [] rest pre c i (suc k) (inr s) h e l =
    rw (s, store-append pre 0 (zeros k) 0 i e)
      (placed pre [] i (i + 0) (suc k) (suc k - 0) (omega arith) (omega arith))
to_proper_string-text (x ∷ text) rest pre c i zero z h e l = absurd (omega arith)
to_proper_string-text (x ∷ text) rest pre c i (suc k) z h e l =
    rw (other x 0 h.0, other x b' ' h.1, store-append pre 0 (zeros k) x i e)
      (subst
        (λ xs.
          fat16_to_proper_string (text ++ c ∷ rest) (i + 1) xs
          ≡ some (i + suc (length text), pre ++ (x ∷ text ++ zeros (suc k - suc (length text)))))
        (snoc-append pre x (zeros k))
        (to_proper_string-text text rest (pre ++ x ∷ []) c (i + 1) k z h.2
            (length-snoc pre x ∙ ap (λ n. n + 1) e) (omega arith)
          ∙ ap (λ xs. some (i + 1 + length text, xs))
              (snoc-append pre x (text ++ zeros (k - length text)))
          ∙ placed pre (x ∷ text) (i + 1 + length text) (i + suc (length text)) (k - length text)
              (suc k - suc (length text)) (omega arith) (omega arith)))

-- A name that does not end within the buffer is written past it.
to_proper_string-none :
    (text rest pre : List ℕ) (i k : ℕ)
    → Plain text
    → length pre ≡ i
    → k < length text
    → fat16_to_proper_string (text ++ rest) i (pre ++ zeros k) ≡ none
unfolding fat16_to_proper_string
to_proper_string-none [] rest pre i k h e l = absurd (omega arith)
to_proper_string-none (x ∷ text) rest pre i zero h e l =
    rw (other x 0 h.0, other x b' ' h.1, full) refl
  where
    full : store (pre ++ []) i x ≡ none
    full = rw (append-nil pre) (ground arith)
to_proper_string-none (x ∷ text) rest pre i (suc k) h e l =
    rw (other x 0 h.0, other x b' ' h.1, store-append pre 0 (zeros k) x i e)
      (subst (λ xs. fat16_to_proper_string (text ++ rest) (i + 1) xs ≡ none)
        (snoc-append pre x (zeros k))
        (to_proper_string-none text rest (pre ++ x ∷ []) (i + 1) k h.2
          (length-snoc pre x ∙ ap (λ n. n + 1) e) (omega arith)))

-- The bytes of an item from its name on, and from its extension on, up to their ends.
pub record Reads (item text more : List ℕ) : Type 0 where
  pub end_at : ℕ
  pub behind : List ℕ
  pub ends : Ends end_at
  pub name_at : item ≡ text ++ end_at ∷ behind
  pub more_end_at : ℕ
  pub more_behind : List ℕ
  pub more_ends : Ends more_end_at
  pub ext_at : drop 8 item ≡ more ++ more_end_at ∷ more_behind
  pub text_Plain : Plain text
  pub more_Plain : Plain more

drop-append : (xs ys : List ℕ) (n : ℕ) → length xs ≡ n → drop n (xs ++ ys) ≡ ys
drop-append [] ys zero e = refl
drop-append [] ys (suc n) e = absurd (omega arith)
drop-append (x ∷ xs) ys zero e = absurd (omega arith)
drop-append (x ∷ xs) ys (suc n) e = drop-append xs ys n (omega arith)

Plain-append : (xs ys : List ℕ) → Plain xs → Plain ys → Plain (xs ++ ys)
Plain-append [] ys h k = k
Plain-append (x ∷ xs) ys h k = (h.0, h.1, Plain-append xs ys h.2 k)

cleared : (out : List ℕ) → memset out 0 (length out) ≡ some (zeros (length out))
cleared out =
    memset_lem out 0 (length out) (omega arith)
    ∙ ap some
        (ap (λ xs. zeros (length out) ++ xs) (drop_self out) ∙ append-nil (zeros (length out)))

-- In a buffer with room, the full name of an item with an extension is the bytes from its name on up
-- to the first space or null byte, a dot, and the bytes from its extension on up to the first.
pub fat16_get_full_relative_filename_lem :
    (item text : List ℕ) (x : ℕ) (more out : List ℕ)
    → Reads item text (x ∷ more)
    → length text + 1 + length (x ∷ more) < length out
    → fat16_get_full_relative_filename item out (length out)
      ≡ some (text ++ b'.' ∷ (x ∷ more ++ zeros (length out - length text - 1 - length (x ∷ more))))
unfolding fat16_get_full_relative_filename
fat16_get_full_relative_filename_lem item text x more out r l =
    rw
      (
        cleared out,
        first,
        ap (λ xs. get_elem? xs 0) r.ext_at,
        other x 0 r.more_Plain.0,
        other x b' ' r.more_Plain.1,
        stored,
        second,
      )
      (ap some
        (snoc-append text b'.' (x ∷ more ++ zeros (len - length text - 1 - length (x ∷ more)))))
  where
    len : ℕ
    len = length out

    first :
        fat16_to_proper_string item 0 (zeros len)
        ≡ some (length text, text ++ zeros (len - length text))
    first =
        ap (λ xs. fat16_to_proper_string xs 0 (zeros len)) r.name_at
        ∙ to_proper_string-text text r.behind [] r.end_at 0 len r.ends r.text_Plain refl
            (omega arith)
        ∙ placed [] text (0 + length text) (length text) (len - length text) (len - length text)
            (omega arith) refl

    stored :
        store (text ++ zeros (len - length text)) (length text) b'.'
        ≡ some ((text ++ b'.' ∷ []) ++ zeros (len - length text - 1))
    stored =
        ap (λ xs. store (text ++ xs) (length text) b'.')
          (zeros_pos (len - length text) (omega arith))
        ∙ store-append text 0 (zeros (len - length text - 1)) b'.' (length text) refl
        ∙ ap some (sym (snoc-append text b'.' (zeros (len - length text - 1))))

    second :
        fat16_to_proper_string
          (drop 8 item)
          (length text + 1)
          ((text ++ b'.' ∷ []) ++ zeros (len - length text - 1))
        ≡ some (
          length text + 1 + length (x ∷ more),
          (text ++ b'.' ∷ []) ++ (x ∷ more ++ zeros (len - length text - 1 - length (x ∷ more))),
        )
    second =
        ap
          (λ xs.
            fat16_to_proper_string xs (length text + 1)
              ((text ++ b'.' ∷ []) ++ zeros (len - length text - 1)))
          r.ext_at
        ∙ to_proper_string-text (x ∷ more) r.more_behind (text ++ b'.' ∷ []) r.more_end_at
            (length text + 1) (len - length text - 1) r.more_ends r.more_Plain
            (length-snoc text b'.') (omega arith)

-- A name of 8 bytes does not end in front of the extension, which is taken for a part of it: the
-- name is given with its extension twice.
pub fat16_get_full_relative_filename-eight :
    (name more behind out : List ℕ) (x end : ℕ)
    → length name ≡ 8
    → Plain name
    → Plain (x ∷ more)
    → Ends end
    → length name + 2 * length (x ∷ more) + 1 < length out
    → fat16_get_full_relative_filename (name ++ ((x ∷ more) ++ end ∷ behind)) out (length out)
      ≡ some (
          (name ++ x ∷ more)
          ++ b'.'
            ∷ (x ∷ more ++ zeros (length out - length (name ++ x ∷ more) - 1 - length (x ∷ more))))
fat16_get_full_relative_filename-eight name more behind out x end e n m z l =
    fat16_get_full_relative_filename_lem item (name ++ x ∷ more) x more out
      (record {
        end_at = end;
        behind = behind;
        ends = z;
        name_at = sym (append_assoc name (x ∷ more) (end ∷ behind));
        more_end_at = end;
        more_behind = behind;
        more_ends = z;
        ext_at = drop-append name (x ∷ more ++ end ∷ behind) 8 e;
        text_Plain = Plain-append name (x ∷ more) n m;
        more_Plain = m;
      })
      (omega (arith, length-append name (x ∷ more)))
  where
    item : List ℕ
    item = name ++ (x ∷ more ++ end ∷ behind)

-- A name of 8 bytes with an extension of 3 bytes, none of them a space or a null byte, and one of these
-- behind them, is written past the 12 bytes that `readdir` gives it.
pub fat16_get_full_relative_filename-readdir :
    (name ext' behind out : List ℕ) (end : ℕ)
    → length name ≡ 8
    → length ext' ≡ 3
    → Plain name
    → Plain ext'
    → Ends end
    → length out ≡ 12
    → fat16_get_full_relative_filename (name ++ (ext' ++ end ∷ behind)) out 12 ≡ none
unfolding fat16_get_full_relative_filename
fat16_get_full_relative_filename-readdir name [] behind out end n e p q z o = absurd (omega arith)
fat16_get_full_relative_filename-readdir name (x ∷ more) behind out end n e p q z o =
    rw
      (
        blank,
        first,
        ap (λ xs. get_elem? xs 0) rest_at,
        other x 0 q.0,
        other x b' ' q.1,
        stored,
        second,
      )
      refl
  where
    text : List ℕ
    text = name ++ x ∷ more

    text_length : length text ≡ 11
    text_length = omega (arith, length-append name (x ∷ more))

    rest_at : drop 8 (name ++ (x ∷ more ++ end ∷ behind)) ≡ x ∷ more ++ end ∷ behind
    rest_at = drop-append name (x ∷ more ++ end ∷ behind) 8 n

    blank : memset out 0 12 ≡ some (zeros 12)
    blank = subst (λ k. memset out 0 k ≡ some (zeros k)) o (cleared out)

    first :
        fat16_to_proper_string (name ++ (x ∷ more ++ end ∷ behind)) 0 (zeros 12)
        ≡ some (11, text ++ zeros 1)
    first =
        ap (λ xs. fat16_to_proper_string xs 0 (zeros 12))
          (sym (append_assoc name (x ∷ more) (end ∷ behind)))
        ∙ to_proper_string-text text behind [] end 0 12 z (Plain-append name (x ∷ more) p q) refl
            (omega (arith, text_length))
        ∙ placed [] text (0 + length text) 11 (12 - length text) 1 (omega (arith, text_length))
            (omega (arith, text_length))

    stored : store (text ++ zeros 1) 11 b'.' ≡ some ((text ++ b'.' ∷ []) ++ zeros 0)
    stored =
        store-append text 0 [] b'.' 11 text_length ∙ ap some (sym (append-nil (text ++ b'.' ∷ [])))

    second :
        fat16_to_proper_string
          (drop 8 (name ++ (x ∷ more ++ end ∷ behind)))
          12
          ((text ++ b'.' ∷ []) ++ zeros 0)
        ≡ none
    second =
        ap (λ xs. fat16_to_proper_string xs 12 ((text ++ b'.' ∷ []) ++ zeros 0)) rest_at
        ∙ to_proper_string-none (x ∷ more) (end ∷ behind) (text ++ b'.' ∷ []) 12 0 q
            (length-snoc text b'.' ∙ ap (λ k. k + 1) text_length) (omega arith)
