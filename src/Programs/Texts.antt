-- ===== src/Programs/Texts.antt =====
-- The texts of the programs as C strings.
use Prim.Native.Char.{code}
use Prim.Native.String.{String}
use white_os.Base.{ℕ, ◌≡◌, Bool, true, not, ◌&&◌, List, [], ◌∷◌, ◌++◌, arith, ◌==◌}
use white_os.Strings.Length.{NoZero}

abbrev pub codes : String → List ℕ
codes String.[] = []
codes (String.◌∷◌ c s) = code c ∷ codes s

-- The bytes of a literal with the terminator.
abbrev pub text : String → List ℕ
text s = codes s ++ 0 ∷ []

abbrev pub no_zero : List ℕ → Bool
no_zero [] = true
no_zero (c ∷ cs) = not (c == 0) && no_zero cs

pub NoZero-no_zero : (cs : List ℕ) → no_zero cs ≡ true → NoZero cs
NoZero-no_zero [] e = tt
NoZero-no_zero (c ∷ cs) e = (ground arith, NoZero-no_zero cs (ground arith))
