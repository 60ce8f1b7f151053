-- ===== src/Path/Parts.antt =====
-- `pparser_get_path_part` and the loop of `pparser_parse` on names that are joined by slashes.
use white_os.Base.{
  ℕ, zero, suc, ◌+◌, ◌≤◌, ◌<◌, ◌≡◌, refl, sym, ap, ◌∙◌, ◌≢◌, ◌⊎◌, inl, inr, Bool, true, false, ◌||◌,
  some, List, [], ◌∷◌, ◌++◌, map, append-nil, append_assoc, arith, ◌==◌, length, get_elem?, drop,
  replicate, ◌>>=◌, store-append, snoc-append, length-snoc,
}
use white_os.Strings.Length.{NoZero, NoZero-append}
use white_os.Path.{
  ret, running, part_loop, skip_slash, pparser_get_path_part, parse_loop, pparser_parse_path_part,
}

-- Bytes that can stand in a name.
abbrev pub Plain : List ℕ → Type 0
Plain [] = Unit
Plain (c ∷ s) = (c ≢ 0) × (c ≢ b'/') × Plain s

-- A name that fits its buffer with the terminator.
abbrev pub IsName : List ℕ → Type 0
IsName n = Plain n × (0 < length n) × (length n < 108)

abbrev pub AllNames : List (List ℕ) → Type 0
AllNames [] = Unit
AllNames (n ∷ ns) = IsName n × AllNames ns

abbrev pub join : List (List ℕ) → List ℕ
join [] = []
join (n ∷ []) = n
join (n ∷ m ∷ ns) = n ++ b'/' ∷ join (m ∷ ns)

-- The buffer that holds a name.
abbrev pub padded : List ℕ → List ℕ
padded n = n ++ drop (length n) (replicate 108 0)

part_loop-Plain :
    (s pre zeros rest : List ℕ) (c i : ℕ)
    → Plain s
    → (c ≡ b'/') ⊎ (c ≡ 0)
    → length pre ≡ i
    → length s ≤ length zeros
    → part_loop (s ++ c ∷ rest) i (pre ++ zeros)
      ≡ some (pre ++ (s ++ drop (length s) zeros), c ∷ rest)
unfolding part_loop
part_loop-Plain [] pre zeros rest c i h t e l = ground arith
part_loop-Plain (x ∷ s) pre [] rest c i h t e l = absurd (omega arith)
part_loop-Plain (x ∷ s) pre (z ∷ zeros) rest c i h t e l =
    rw (other x h.0 h.1, store-append pre z zeros x i e)
      (rw (← snoc-append pre x zeros) (
        part_loop-Plain s (pre ++ x ∷ []) zeros rest c (i + 1) h.2 t
          (omega (arith, length-snoc pre x)) (omega arith)
        ∙ ap (λ b. some (b, c ∷ rest)) (snoc-append pre x (s ++ drop (length s) zeros))))
  where
    other : (x : ℕ) → x ≢ 0 → x ≢ b'/' → ((x == b'/') || (x == 0)) ≡ false
    other x p q = ground arith

-- A name in front of a slash or of the terminator is copied whole into its buffer.
pub path_part_name :
    (n rest : List ℕ) (c : ℕ)
    → IsName n
    → (c ≡ b'/') ⊎ (c ≡ 0)
    → pparser_get_path_part (n ++ c ∷ rest)
      ≡ (skip_slash (c ∷ rest) >>= λ next. some (some (padded n), next))
unfolding pparser_get_path_part
path_part_name [] rest c h t = absurd (omega (arith, h.1))
path_part_name (x ∷ n) rest c h t =
    rw
      (
        other x h.0.0 h.0.1,
        part_loop-Plain (x ∷ n) [] (replicate 108 0) rest c 0 h.0 t refl (omega (arith, h.2)),
      )
      refl
  where
    other : (x : ℕ) → x ≢ 0 → x ≢ b'/' → ((x == 0) || (x == b'/')) ≡ false
    other x p q = ground arith

-- The first of some names, with the others left.
pub path_part_join :
    (n : List ℕ) (ns : List (List ℕ)) (junk : List ℕ)
    → IsName n
    → pparser_get_path_part (join (n ∷ ns) ++ 0 ∷ junk)
      ≡ some (some (padded n), join ns ++ 0 ∷ junk)
path_part_join n [] junk h = path_part_name n junk 0 h (inr refl)
path_part_join n (m ∷ ns) junk h =
    rw (append_assoc n (b'/' ∷ join (m ∷ ns)) (0 ∷ junk))
      (path_part_name n (join (m ∷ ns) ++ 0 ∷ junk) b'/' h (inl refl))

first_byte :
    (n rest : List ℕ) → IsName n → (c : ℕ) × (get_elem? (n ++ rest) 0 ≡ some c) × ((c == 0) ≡ false)
first_byte [] rest h = absurd (omega (arith, h.1))
first_byte (c ∷ n) rest h = (c, refl, ground (arith, h.0.0))

pub first_byte_join :
    (n : List ℕ) (ns : List (List ℕ)) (rest : List ℕ)
    → IsName n
    → (c : ℕ) × (get_elem? (join (n ∷ ns) ++ rest) 0 ≡ some c) × ((c == 0) ≡ false)
first_byte_join n [] rest h = first_byte n rest h
first_byte_join n (m ∷ ns) rest h =
    rw (append_assoc n (b'/' ∷ join (m ∷ ns)) rest)
      (first_byte n (b'/' ∷ (join (m ∷ ns) ++ rest)) h)

-- The loop hangs all the names on the list, in order, given one round more than there are names.
pub parse_loop-join :
    (fuel : ℕ) (parts ns : List (List ℕ)) (junk : List ℕ)
    → AllNames ns
    → length ns < fuel
    → parse_loop fuel true parts (join ns ++ 0 ∷ junk) ≡ ret (parts ++ map padded ns)
unfolding parse_loop pparser_parse_path_part
parse_loop-join zero parts ns junk h f = absurd (omega arith)
parse_loop-join (suc fuel) parts [] junk h f = ap ret (sym (append-nil parts))
parse_loop-join (suc fuel) parts (n ∷ ns) junk h f =
    let (c, e, z) = first_byte_join n ns (0 ∷ junk) h.0 in
    rw (e, z, path_part_join n ns junk h.0)
      (parse_loop-join fuel (parts ++ padded n ∷ []) ns junk h.1 (omega arith)
        ∙ ap ret (snoc-append parts (padded n) (map padded ns)))

-- At a slash the loop makes no step forward: it never ends.
pub parse_loop-slash :
    (fuel : ℕ) (linked : Bool) (parts : List (List ℕ)) (rest : List ℕ)
    → parse_loop fuel linked parts (b'/' ∷ rest) ≡ running
unfolding parse_loop pparser_get_path_part pparser_parse_path_part
parse_loop-slash zero linked parts rest = refl
parse_loop-slash (suc fuel) linked parts rest = parse_loop-slash fuel false parts rest

pub NoZero-Plain : (s : List ℕ) → Plain s → NoZero s
NoZero-Plain [] h = tt
NoZero-Plain (c ∷ s) h = (h.0, NoZero-Plain s h.2)

pub NoZero-join : (ns : List (List ℕ)) → AllNames ns → NoZero (join ns)
NoZero-join [] h = tt
NoZero-join (n ∷ []) h = NoZero-Plain n h.0.0
NoZero-join (n ∷ m ∷ ns) h =
    NoZero-append n (b'/' ∷ join (m ∷ ns)) (NoZero-Plain n h.0.0)
      (λ e. absurd (omega arith), NoZero-join (m ∷ ns) h.1)
