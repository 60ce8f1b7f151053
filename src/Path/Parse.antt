-- ===== src/Path/Parse.antt =====
-- `pparser_parse` on the paths that are written from a drive and names, and on others.
use white_os.Base.{
  ℕ, suc, ◌+◌, ◌≤◌, ◌<◌, ◌≡◌, refl, ap, ◌∙◌, inl, true, false, none, some, List, [], ◌∷◌, ◌++◌, map,
  append_assoc, arith, ltb, leb, lt→ltb, length, length-append,
}
use white_os.Base.Int.{pos}
use white_os.Memory.{memcmp}
use white_os.Strings.{isdigit}
use white_os.Strings.Length.{NoZero, NoZero-append, strlen_lem, strnlen_lem}
use white_os.Path.{
  ret, running, access, and_then, pparser_path_valid_format, pparser_get_drive_from_path,
  pparser_get_path_part, parse_loop, pparser_parse, pparser_parse_path_part,
}
use white_os.Path.Parts.{
  IsName, AllNames, join, padded, path_part_name, path_part_join, parse_loop-join, parse_loop-slash,
  NoZero-Plain, NoZero-join,
}

-- "<drive>:/<rest>"
abbrev pub rooted : ℕ → List ℕ → List ℕ
rooted drive rest = (b'0' + drive) ∷ b':' ∷ b'/' ∷ rest

NoZero-rooted : (drive : ℕ) (rest : List ℕ) → NoZero rest → NoZero (rooted drive rest)
NoZero-rooted drive rest h =
    (λ e. absurd (omega arith), (λ e. absurd (omega arith), (λ e. absurd (omega arith), h)))

-- A drive of one digit in front of a text that leaves the path within its limit is recognised.
drive_of_rooted :
    (drive : ℕ) (s junk : List ℕ)
    → drive < 10
    → NoZero s
    → length s ≤ 105
    → pparser_get_drive_from_path (rooted drive (s ++ 0 ∷ junk)) ≡ some (pos drive, s ++ 0 ∷ junk)
unfolding pparser_get_drive_from_path pparser_path_valid_format isdigit memcmp
drive_of_rooted drive s junk d h l =
    rw
      (
        strnlen_lem (rooted drive s) junk 108 (NoZero-rooted drive s h),
        within,
        enough,
        upper,
        lower,
      )
      (ap (λ k. some (pos k, s ++ 0 ∷ junk)) (omega arith))
  where
    within : leb (suc (suc (suc (length s)))) 108 ≡ true
    within = ground arith

    enough : leb 3 (suc (suc (suc (length s)))) ≡ true
    enough = ground arith

    upper : leb (b'0' + drive) b'9' ≡ true
    upper = ground arith

    lower : leb b'0' (b'0' + drive) ≡ true
    lower = ground arith

module _ (stale fuel drive : ℕ) (junk : List ℕ) (d : drive < 10) where
  -- What is left to do once the drive has been read.
  parse_rest :
      (s : List ℕ)
      → NoZero s
      → length s ≤ 105
      → pparser_parse stale fuel (rooted drive (s ++ 0 ∷ junk))
        ≡ access (pparser_parse_path_part false [] (s ++ 0 ∷ junk)) λ (part, parts, next).
          elim part [
            | none ↦ ret (some (record { drive_no = drive; parts = []; last_next = 0 }))
            | some name ↦ and_then (parse_loop fuel true (name ∷ []) next) λ parts'.
                ret (some (record { drive_no = drive; parts = parts'; last_next = stale }))
          ]
  unfolding pparser_parse
  parse_rest s h l =
      rw
        (
          strlen_lem (rooted drive s) junk (NoZero-rooted drive s h),
          short,
          drive_of_rooted drive s junk d h l,
        )
        refl
    where
      short : ltb 108 (suc (suc (suc (length s)))) ≡ false
      short = ground arith

  -- The `next` of the last part, where there is one.
  abbrev pub end_of : List (List ℕ) → ℕ
  end_of [] = 0
  end_of (n ∷ ns) = stale

  -- A path of up to 108 bytes that is written from a drive and names parses to parts that are these
  -- names, each in its buffer, given a round for each name. The list has no end of its own: the
  -- `next` of its last part is what the memory held before, `stale`.
  pub pparser_parse-join :
      (ns : List (List ℕ))
      → AllNames ns
      → length (join ns) ≤ 105
      → length ns ≤ fuel
      → pparser_parse stale fuel (rooted drive (join ns ++ 0 ∷ junk))
        ≡ ret (some (record { drive_no = drive; parts = map padded ns; last_next = end_of ns }))
  unfolding pparser_parse_path_part
  pparser_parse-join [] h l f = parse_rest [] tt l ∙ unfold pparser_get_path_part in refl
  pparser_parse-join (n ∷ ns) h l f =
      parse_rest (join (n ∷ ns)) (NoZero-join (n ∷ ns) h) l
      ∙ rw
          (
            path_part_join n ns junk h.0,
            parse_loop-join fuel (padded n ∷ []) ns junk h.1 (omega arith),
          )
          refl

  -- Two slashes behind the first name, in a path of up to 108 bytes: the parser never returns, however
  -- long it runs.
  pub pparser_parse-hangs :
      (n rest : List ℕ)
      → IsName n
      → NoZero rest
      → length n + 2 + length rest ≤ 105
      → pparser_parse stale fuel (rooted drive ((n ++ b'/' ∷ b'/' ∷ rest) ++ 0 ∷ junk)) ≡ running
  unfolding pparser_parse_path_part
  pparser_parse-hangs n rest h k l =
      parse_rest (n ++ b'/' ∷ b'/' ∷ rest)
        (NoZero-append n _ (NoZero-Plain n h.0)
          (λ e. absurd (omega arith), (λ e. absurd (omega arith), k)))
        (omega (arith, length-append n (b'/' ∷ b'/' ∷ rest)))
      ∙ rw (append_assoc n (b'/' ∷ b'/' ∷ rest) (0 ∷ junk)) (
          rw
            (
              path_part_name n (b'/' ∷ (rest ++ 0 ∷ junk)) b'/' h (inl refl),
              parse_loop-slash fuel true (padded n ∷ []) (rest ++ 0 ∷ junk),
            )
            refl)

-- A path of more than 108 bytes is refused.
pub pparser_parse-long :
    (stale fuel : ℕ) (s junk : List ℕ)
    → NoZero s
    → 108 < length s
    → pparser_parse stale fuel (s ++ 0 ∷ junk) ≡ ret none
unfolding pparser_parse
pparser_parse-long stale fuel s junk h l = rw (strlen_lem s junk h, lt→ltb 108 (length s) l)
