-- ===== src/Fat16/Names.antt =====
-- The names of directory items: `fat16_to_proper_string` and `fat16_get_full_relative_filename`.
-- `none` is an access outside the item's array or the buffer.
pub mod Full
use white_os.Base.{
  ℕ, zero, suc, ◌+◌, ◌-◌, ◌*◌, ◌/◌, ◌%◌, ◌^◌, ◌≤◌, ◌<◌, bit_and, bit_or, ◌≡◌, refl, sym, ap, ap₂,
  ◌∙◌, subst, ◌≢◌, ◌↔◌, ◌⊎◌, inl, inr, Bool, true, false, not, ◌&&◌, ◌||◌, Option, none, some, List,
  [], ◌∷◌, ◌++◌, map, append-nil, append_assoc, arith, dec_lt, dec_le, ℕ_discrete, ltb, leb, ◌==◌,
  if◌then◌else◌, ltb→lt, lt→ltb, leb→le, ==_iff, Bool-cases, Option-cases, length, get_elem?, set,
  get_or, take, drop, replicate, length-append, length-set, get_elem?-set_self, get_elem?-set_ne,
  take-append-drop, length-take, length-drop, length-replicate, length-map, ◌>>=◌, store,
  set-append, store-append, store_of_lt, get_elem?-append, get_or-append_left, get_or-append_right,
  snoc-append, length-snoc, get_elem?-drop, take_self, drop_self, replicate-add, get_or-set_self,
  get_or-set_ne, get_or-snoc, get_elem?-eq-get_or,
}
use white_os.Memory.{memset}
use white_os.Fat16.Layout.{ext}

-- The bytes of `in` up to a space or a null byte go to the buffer from index `i` on; the index behind
-- them and the buffer. The terminator is written at a space alone.
unfoldable pub fat16_to_proper_string : List ℕ → ℕ → List ℕ → Option (ℕ × List ℕ)
fat16_to_proper_string [] i out = none
fat16_to_proper_string (c ∷ rest) i out =
    let go = fat16_to_proper_string rest (i + 1) in
    if c == 0
    then some (i, out)
    else (if c == b' '
        then (store out i 0 >>= λ out'. some (i, out'))
        else (store out i c >>= λ out'. go out'))

-- `item` is the array from the item on, `out` the buffer.
unfoldable pub fat16_get_full_relative_filename : List ℕ → List ℕ → ℕ → Option (List ℕ)
fat16_get_full_relative_filename item out max_len = memset out 0x00 max_len >>= λ out0.
    fat16_to_proper_string item 0 out0 >>= λ (i, out1). get_elem? (ext item) 0 >>= λ e.
    if not (e == 0) && not (e == b' ')
    then (store out1 i b'.' >>= λ out2.
        fat16_to_proper_string (ext item) (i + 1) out2 >>= λ (j, out3). some out3)
    else some out1
