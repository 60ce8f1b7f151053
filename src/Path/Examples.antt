-- ===== src/Path/Examples.antt =====
-- Paths that the parser reads, refuses or never finishes, and the theorems at such paths.
use white_os.Base.{ℕ, zero, suc, ◌≡◌, refl, ◌≢◌, none, some, List, [], ◌∷◌, ◌++◌, arith, replicate}
use white_os.Memory.{memcmp}
use white_os.Strings.{strlen, strnlen, isdigit}
use white_os.Strings.Length.{NoZero}
use white_os.Path.{
  ret, fault, running, pparser_path_valid_format, pparser_get_drive_from_path,
  pparser_get_path_part, pparser_parse, pparser_parse_path_part,
}
use white_os.Path.Parts.{IsName, join, padded}
use white_os.Path.Parse.{rooted, pparser_parse-join, pparser_parse-hangs, pparser_parse-long}
use white_os.Path.Safety.{pparser_parse-ne-fault}

-- "ab" and "c.d"
abbrev ab : List ℕ
ab = b'a' ∷ b'b' ∷ []

abbrev cd : List ℕ
cd = b'c' ∷ b'.' ∷ b'd' ∷ []

ab-IsName : IsName ab
ab-IsName = ((omega arith, omega arith, (omega arith, omega arith, tt)), omega arith, omega arith)

cd-IsName : IsName cd
cd-IsName = (
  (omega arith, omega arith, (omega arith, omega arith, (omega arith, omega arith, tt))),
  omega arith,
  omega arith,
)

-- "0:/ab/c.d", with other bytes behind it
parse_two_names :
    pparser_parse 9 5 (rooted 0 (join (ab ∷ cd ∷ []) ++ 0 ∷ 7 ∷ []))
    ≡ ret (some (record { drive_no = 0; parts = padded ab ∷ padded cd ∷ []; last_next = 9 }))
unfolding pparser_parse pparser_parse_path_part pparser_get_drive_from_path
    pparser_path_valid_format pparser_get_path_part strlen strnlen isdigit memcmp
parse_two_names = refl

-- "x:/"
parse_no_drive : pparser_parse 9 5 (b'x' ∷ b':' ∷ b'/' ∷ 0 ∷ []) ≡ ret none
unfolding parse_two_names
parse_no_drive = refl

-- "0://ab" is taken for the root directory
parse_slash_first :
    pparser_parse 9 5 (rooted 0 (b'/' ∷ (ab ++ 0 ∷ [])))
    ≡ ret (some (record { drive_no = 0; parts = []; last_next = 0 }))
unfolding parse_two_names
parse_slash_first = refl

pparser_parse-join_example :
    pparser_parse 9 2 (rooted 3 (join (ab ∷ cd ∷ []) ++ 0 ∷ []))
    ≡ ret (some (record { drive_no = 3; parts = padded ab ∷ padded cd ∷ []; last_next = 9 }))
pparser_parse-join_example =
    pparser_parse-join 9 2 3 [] (omega arith) (ab ∷ cd ∷ []) (ab-IsName, (cd-IsName, tt))
      (omega arith) (omega arith)

pparser_parse-hangs_example :
    pparser_parse 9 1000 (rooted 0 ((ab ++ b'/' ∷ b'/' ∷ cd) ++ 0 ∷ [])) ≡ running
pparser_parse-hangs_example =
    pparser_parse-hangs 9 1000 0 [] (omega arith) ab cd ab-IsName
      (omega arith, (omega arith, (omega arith, tt))) (omega arith)

NoZero-replicate : (n : ℕ) → NoZero (replicate n b'a')
NoZero-replicate zero = tt
NoZero-replicate (suc n) = (λ e. absurd (omega arith), NoZero-replicate n)

pparser_parse-long_example : pparser_parse 9 9 (replicate 109 b'a' ++ 0 ∷ []) ≡ ret none
pparser_parse-long_example =
    pparser_parse-long 9 9 (replicate 109 b'a') [] (NoZero-replicate 109) (omega arith)

pparser_parse-ne-fault_example : pparser_parse 9 9 (replicate 50 b'a' ++ 0 ∷ []) ≢ fault
pparser_parse-ne-fault_example =
    pparser_parse-ne-fault 9 9 (replicate 50 b'a') [] (NoZero-replicate 50)
