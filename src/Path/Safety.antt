-- ===== src/Path/Safety.antt =====
-- The parser stays within its buffers and its text on every terminated string.
use white_os.Base.{
  ℕ, zero, suc, ◌+◌, ◌-◌, ◌≤◌, ◌<◌, ◌≡◌, refl, ap, subst, ◌≢◌, ◌⊎◌, inl, inr, Bool, true, false,
  ◌&&◌, Option, none, some, List, [], ◌∷◌, ◌++◌, append-nil, append_assoc, arith, ℕ_discrete, ltb,
  leb, ◌==◌, Bool-cases, length, length-append, ◌>>=◌,
}
use white_os.Base.Int.{pos, negsuc}
use white_os.Memory.{memcmp}
use white_os.Strings.{isdigit}
use white_os.Strings.Length.{NoZero, strlen_lem, strnlen_lem}
use white_os.Path.{
  Run, ret, fault, running, access, and_then, PathRoot, pparser_path_valid_format,
  pparser_get_drive_from_path, pparser_get_path_part, parse_loop, pparser_parse,
  pparser_parse_path_part, is_part, is_zero_int,
}
use white_os.Path.Parts.{Plain, path_part_name, padded}

-- A text up to its first slash.
record Cut (s : List ℕ) : Type 0 where
  name : List ℕ
  left : List ℕ
  whole : s ≡ name ++ left
  plain : Plain name
  stops : (left ≡ []) ⊎ ((t : List ℕ) × (left ≡ b'/' ∷ t))

cut : (s : List ℕ) → NoZero s → Cut s
cut [] h = record { name = []; left = []; whole = refl; plain = tt; stops = inl refl }
cut (c ∷ s) h = elim (ℕ_discrete c b'/') [
  | yes e ↦ record {
    name = [];
    left = c ∷ s;
    whole = refl;
    plain = tt;
    stops = inr (s, ap (λ d. d ∷ s) e);
  }
  | no n ↦
      let r = cut s h.1 in
      record {
        name = c ∷ r.name;
        left = r.left;
        whole = ap (λ t. c ∷ t) r.whole;
        plain = (h.0, n, r.plain);
        stops = r.stops;
      }
]

-- What a call leaves: a shorter text in front of the same terminator.
record Left (s junk : List ℕ) (result : Option (Option (List ℕ) × List ℕ)) : Type 0 where
  name : Option (List ℕ)
  text : List ℕ
  returns : result ≡ some (name, text ++ 0 ∷ junk)
  clean : NoZero text
  shorter : length text ≤ length s

NoZero-right : (s t : List ℕ) → NoZero (s ++ t) → NoZero t
NoZero-right [] t h = h
NoZero-right (c ∷ s) t h = NoZero-right s t h.1

part_of_cut :
    (n left junk : List ℕ)
    → Plain n
    → 0 < length n
    → length n + length left ≤ 107
    → NoZero (n ++ left)
    → (left ≡ []) ⊎ ((t : List ℕ) × (left ≡ b'/' ∷ t))
    → Left (n ++ left) junk (pparser_get_path_part ((n ++ left) ++ 0 ∷ junk))
part_of_cut n left junk p some_byte l h (inl e) = record {
  name = some (padded n);
  text = [];
  returns = rw (e, append-nil) (path_part_name n junk 0 (p, some_byte, omega arith) (inr refl));
  clean = tt;
  shorter = omega arith;
}
part_of_cut n left junk p some_byte l h (inr (t, e)) = record {
  name = some (padded n);
  text = t;
  returns =
      rw (e, append_assoc n (b'/' ∷ t) (0 ∷ junk))
        (path_part_name n (t ++ 0 ∷ junk) b'/' (p, some_byte, omega arith) (inl refl));
  clean = (subst NoZero e (NoZero-right n left h)).1;
  shorter = omega (arith, ap length e, length-append n left);
}

path_part-Left :
    (s junk : List ℕ)
    → NoZero s
    → length s ≤ 107
    → Left s junk (pparser_get_path_part (s ++ 0 ∷ junk))
path_part-Left [] junk h l = record {
  name = none;
  text = [];
  returns = unfold pparser_get_path_part in refl;
  clean = tt;
  shorter = omega arith;
}
path_part-Left (c ∷ s) junk h l = elim (ℕ_discrete c b'/') [
  | yes e ↦ record {
    name = none;
    text = c ∷ s;
    returns = unfold pparser_get_path_part in rw e refl;
    clean = h;
    shorter = omega arith;
  }
  | no n ↦
      let r = cut s h.1 in
      rw r.whole (
        part_of_cut (c ∷ r.name) r.left junk (h.0, n, r.plain) (omega arith)
          (omega (arith, length-append r.name r.left, ap length r.whole))
          (h.0, subst NoZero r.whole h.1) r.stops)
]

after_part :
    (fuel : ℕ) (linked : Bool) (parts : List (List ℕ)) (path next : List ℕ) (name : Option (List ℕ))
    → pparser_get_path_part path ≡ some (name, next)
    → ((l : Bool) (ps : List (List ℕ)) → parse_loop fuel l ps next ≢ fault)
    → access
        (pparser_parse_path_part linked parts path)
        (λ (part, parts', next'). parse_loop fuel (is_part part) parts' next')
      ≢ fault
unfolding pparser_parse_path_part
after_part fuel linked parts path next none e ih = rw e (ih false parts)
after_part fuel linked parts path next (some n) e ih = rw e (ih true _)

parse_loop-ne-fault :
    (fuel : ℕ) (linked : Bool) (parts : List (List ℕ)) (s junk : List ℕ)
    → NoZero s
    → length s ≤ 107
    → parse_loop fuel linked parts (s ++ 0 ∷ junk) ≢ fault
unfolding parse_loop
parse_loop-ne-fault zero linked parts s junk h l = λ e. cc
parse_loop-ne-fault (suc fuel) linked parts [] junk h l = λ e. cc
parse_loop-ne-fault (suc fuel) linked parts (c ∷ s) junk h l =
    let r = path_part-Left (c ∷ s) junk h l in
    rw byte (
      after_part fuel linked parts (c ∷ (s ++ 0 ∷ junk)) (r.text ++ 0 ∷ junk) r.name r.returns
        (λ l' ps. parse_loop-ne-fault fuel l' ps r.text junk r.clean (omega (arith, r.shorter, l))))
  where
    byte : (c == 0) ≡ false
    byte = ground (arith, h.0)

-- The comparison with ":/" answers.
colon_slash :
    (b c : ℕ) (rest : List ℕ)
    → ((memcmp (b ∷ c ∷ rest) (b':' ∷ b'/' ∷ 0 ∷ []) 2 >>= λ r. some (is_zero_int r)) ≡ some true)
      ⊎ ((memcmp (b ∷ c ∷ rest) (b':' ∷ b'/' ∷ 0 ∷ []) 2 >>= λ r. some (is_zero_int r))
          ≡ some false)
unfolding memcmp
colon_slash b c rest = ground arith

-- What reading the drive leaves of a terminated string: an error, or a terminated string.
drive_cases :
    (s junk : List ℕ)
    → NoZero s
    → length s ≤ 108
    → ((e : ℕ) × (rest : List ℕ) × (pparser_get_drive_from_path (s ++ 0 ∷ junk)
          ≡ some (negsuc e, rest)))
      ⊎ ((d : ℕ) × (t : List ℕ) × (pparser_get_drive_from_path (s ++ 0 ∷ junk)
            ≡ some (pos d, t ++ 0 ∷ junk))
          × NoZero t
          × (length t ≤ 107))
unfolding pparser_get_drive_from_path pparser_path_valid_format isdigit memcmp
drive_cases [] junk h l = inl (3, 0 ∷ junk, rw (strnlen_lem [] junk 108 h) refl)
drive_cases (a ∷ []) junk h l = inl (3, a ∷ 0 ∷ junk, rw (strnlen_lem (a ∷ []) junk 108 h) refl)
drive_cases (a ∷ b ∷ []) junk h l =
    inl (3, a ∷ b ∷ 0 ∷ junk, rw (strnlen_lem (a ∷ b ∷ []) junk 108 h) refl)
drive_cases (a ∷ b ∷ c ∷ s) junk h l =
    let path = a ∷ b ∷ c ∷ (s ++ 0 ∷ junk) in
    elim (Bool-cases (leb a b'9' && leb b'0' a)) [
      | inl t ↦ elim (colon_slash b c (s ++ 0 ∷ junk)) [
        | inl e ↦ inr (
          a - b'0',
          s,
          rw (strnlen_lem (a ∷ b ∷ c ∷ s) junk 108 h, within, enough, t, e) refl,
          h.1.1.1,
          omega arith,
        )
        | inr e ↦
            inl (3, path, rw (strnlen_lem (a ∷ b ∷ c ∷ s) junk 108 h, within, enough, t, e) refl)
      ]
      | inr f ↦ inl (3, path, rw (strnlen_lem (a ∷ b ∷ c ∷ s) junk 108 h, within, enough, f) refl)
    ]
  where
    within : leb (suc (suc (suc (length s)))) 108 ≡ true
    within = ground arith

    enough : leb 3 (suc (suc (suc (length s)))) ≡ true
    enough = ground arith

parse_after :
    (stale fuel d : ℕ) (r : Option (List ℕ)) (path s junk : List ℕ)
    → pparser_get_path_part path ≡ some (r, s ++ 0 ∷ junk)
    → NoZero s
    → length s ≤ 107
    → access {B = Option PathRoot} (pparser_parse_path_part false [] path) (λ (part, parts, next).
      elim part [
        | none ↦ ret (some (record { drive_no = d; parts = []; last_next = 0 }))
        | some name ↦
            and_then
              (parse_loop fuel true (name ∷ []) next)
              λ parts'. ret (some (record { drive_no = d; parts = parts'; last_next = stale }))
      ])
      ≢ fault
unfolding pparser_parse_path_part
parse_after stale fuel d none path s junk e h l = rw e (λ q. cc)
parse_after stale fuel d (some name) path s junk e h l = rw e (
    keeps (parse_loop fuel true (name ∷ []) (s ++ 0 ∷ junk))
      (parse_loop-ne-fault fuel true (name ∷ []) s junk h l))
  where
    keeps :
        (r : Run (List (List ℕ)))
        → r ≢ fault
        → and_then {B = Option PathRoot} r
            (λ parts. ret (some (record { drive_no = d; parts = parts; last_next = stale })))
          ≢ fault
    keeps (ret a) h = λ e. cc
    keeps fault h = λ e. h refl
    keeps running h = λ e. cc

-- On every terminated string, whatever its bytes, the parser reads and writes inside its arrays.
pub pparser_parse-ne-fault :
    (stale fuel : ℕ) (s junk : List ℕ) → NoZero s → pparser_parse stale fuel (s ++ 0 ∷ junk) ≢ fault
unfolding pparser_parse
pparser_parse-ne-fault stale fuel s junk h = elim (Bool-cases (ltb 108 (length s))) [
  | inl long ↦ rw (strlen_lem s junk h, long) (λ e. cc)
  | inr short ↦ elim (drive_cases s junk h (ground arith)) [
    | inl (e, rest, bad) ↦ rw (strlen_lem s junk h, short, bad) (λ e. cc)
    | inr (d, t, good, clean, small) ↦
        let r = path_part-Left t junk clean small in
        rw (strlen_lem s junk h, short, good)
          (parse_after stale fuel d r.name (t ++ 0 ∷ junk) r.text junk r.returns r.clean
            (omega (arith, r.shorter)))
  ]
]
