-- ===== src/Pic/Masks.antt =====
-- The masks of the interrupts. Of the controllers the data ports are assumed to give back the mask
-- that was written to them last.
use white_os.Base.{
  ℕ, ◌-◌, ◌/◌, ◌%◌, ◌^◌, ◌<◌, bit_and, bit_or, ◌≡◌, refl, sym, ap, ap₂, ℕ_discrete, ◌∙◌, Bool, true,
  false, not, arith, dec_lt, ltb, ◌==◌, ==_iff, if◌then◌else◌, ◌⊎◌, inl, inr, lt→ltb,
}
use white_os.Base.Bits.{all_below, all_below_lem}
use white_os.Io.{Ports}
use white_os.Pic.{pic_1_data, pic_2_data, pic_mask, pic_unmask}

abbrev pub IsData : ℕ → Type 0
IsData port = (port ≡ pic_1_data) ⊎ (port ≡ pic_2_data)

-- `mask d port` is the mask of the controller with that data port.
pub record HasMasks {D : Type 0} (ports : Ports D) (mask : D → ℕ → ℕ) : Type 0 where
  pub byte : (d : D) (port : ℕ) → mask d port < 256
  pub read : (d : D) (port : ℕ) → IsData port → (ports.insb d port).0 ≡ mask d port
  pub read_kept :
      (d : D) (port other : ℕ) → IsData port → mask (ports.insb d port).1 other ≡ mask d other
  pub written :
      (d : D) (port value other : ℕ)
      → IsData port
      → value < 256
      → mask (ports.outb d port value) other ≡ (if other == port then value else mask d other)

abbrev pub bit_of : (mask bit : ℕ) → Bool
bit_of mask bit = mask / 2 ^ bit % 2 == 1

-- The controller of an interrupt, and its bit there.
abbrev pub port_of : ℕ → ℕ
port_of irq = if ltb irq 8 then pic_1_data else pic_2_data

abbrev pub place_of : ℕ → ℕ
place_of irq = if ltb irq 8 then irq else irq - 8

-- Interrupt `irq` is masked: its bit is set.
abbrev pub is_masked : {D : Type 0} → (D → ℕ → ℕ) → D → ℕ → Bool
is_masked mask d irq = bit_of (mask d (port_of irq)) (place_of irq)

same_bool : Bool → Bool → Bool
same_bool true b = b
same_bool false b = not b

mask_table :
    all_below 256 (λ m. all_below 8 (λ i.
      all_below 8
        (λ j. same_bool (bit_of (bit_or m (2 ^ i) % 256) j) (if j == i then true else bit_of m j))))
    ≡ true
unfolding all_below same_bool
mask_table = refl

unmask_table :
    all_below 256 (λ m. all_below 8 (λ i. all_below 8 (λ j.
      same_bool
        (bit_of (bit_and m (2 ^ 32 - 1 - 2 ^ i) % 256) j)
        (if j == i then false else bit_of m j))))
    ≡ true
unfolding all_below same_bool
unmask_table = refl

same_bool-eq : (a b : Bool) → same_bool a b ≡ true → a ≡ b
unfolding same_bool
same_bool-eq true true e = refl
same_bool-eq true false e = cc
same_bool-eq false true e = cc
same_bool-eq false false e = refl

mask_bits :
    (m i j : ℕ)
    → m < 256
    → i < 8
    → j < 8
    → bit_of (bit_or m (2 ^ i) % 256) j ≡ (if j == i then true else bit_of m j)
mask_bits m i j h k l =
    same_bool-eq _ _
      (all_below_lem 8 _ j (all_below_lem 8 _ i (all_below_lem 256 _ m mask_table h) k) l)

unmask_bits :
    (m i j : ℕ)
    → m < 256
    → i < 8
    → j < 8
    → bit_of (bit_and m (2 ^ 32 - 1 - 2 ^ i) % 256) j ≡ (if j == i then false else bit_of m j)
unmask_bits m i j h k l =
    same_bool-eq _ _
      (all_below_lem 8 _ j (all_below_lem 8 _ i (all_below_lem 256 _ m unmask_table h) k) l)

place_in : (irq : ℕ) → irq < 16 → place_of irq < 8
place_in irq h = ground arith

same_place :
    (j irq : ℕ)
    → j < 16
    → irq < 16
    → port_of j ≡ port_of irq
    → (place_of j == place_of irq) ≡ (j == irq)
same_place j irq l h e = ground arith

apart : (j i : ℕ) → ¬ (j ≡ i) → (j == i) ≡ false
apart j i n = ground arith

module _ {D : Type 0} (ports : Ports D) (mask : D → ℕ → ℕ) (has : HasMasks ports mask) where
  IsData-port_of : (irq : ℕ) → IsData (port_of irq)
  IsData-port_of irq = elim (dec_lt irq 8) [
    | yes l ↦ rw (lt→ltb irq 8 l) (inl refl)
    | no l ↦ rw (not_below irq l) (inr refl)
  ]
    where
      not_below : (irq : ℕ) → ¬ (irq < 8) → ltb irq 8 ≡ false
      not_below irq l = ground arith

  -- A read of the mask of an interrupt's controller, and a write of the mask changed in its bit.
  change_bit :
      (change : ℕ → ℕ → ℕ) (value : Bool)
      → ((m i : ℕ) → change m i % 256 < 256)
      → ((m i j : ℕ)
          → m < 256
          → i < 8
          → j < 8
          → bit_of (change m i % 256) j ≡ (if j == i then value else bit_of m j))
      → (d : D) (irq j : ℕ) → irq < 16
      → j < 16
      → is_masked mask
          (ports.outb
            (ports.insb d (port_of irq)).1
            (port_of irq)
            (change (ports.insb d (port_of irq)).0 (place_of irq) % 256))
          j
        ≡ (if j == irq then value else is_masked mask d j)
  change_bit change value small bits d irq j h l =
      ap (λ n. bit_of n (place_of j))
        (has.written (ports.insb d (port_of irq)).1 (port_of irq)
          (change (ports.insb d (port_of irq)).0 (place_of irq) % 256) (port_of j)
          (IsData-port_of irq) (small _ _))
      ∙ elim (ℕ_discrete (port_of j) (port_of irq)) [
        | yes e ↦
            rw
              (
                (==_iff (port_of j) (port_of irq)).1 e,
                has.read d (port_of irq) (IsData-port_of irq),
              )
              (bits (mask d (port_of irq)) (place_of irq) (place_of j) (has.byte d (port_of irq))
                  (place_in irq h) (place_in j l)
                ∙ ap₂ (λ c m. if c then value else bit_of m (place_of j)) (same_place j irq l h e)
                    (ap (mask d) (sym e)))
        | no n ↦
            rw (apart (port_of j) (port_of irq) n, apart j irq (λ e. n (ap port_of e)))
              (ap (λ m. bit_of m (place_of j))
                (has.read_kept d (port_of irq) (port_of j) (IsData-port_of irq)))
      ]

  -- On interrupts 0 to 15 `pic_mask` masks the one that is given and no other, and `pic_unmask`
  -- takes the mask from it and from no other.
  pub pic_mask-pic_unmask :
      (d : D) (irq : ℕ)
      → irq < 16
      → ((j : ℕ)
          → j < 16
          → is_masked mask (pic_mask ports d irq) j
            ≡ (if j == irq then true else is_masked mask d j))
        × ((j : ℕ)
            → j < 16
            → is_masked mask (pic_unmask ports d irq) j
              ≡ (if j == irq then false else is_masked mask d j))
  unfolding pic_mask pic_unmask
  pic_mask-pic_unmask d irq h = (
    λ j l. change_bit (λ m i. bit_or m (2 ^ i)) true (λ m i. omega arith) mask_bits d irq j h l,
    λ j l.
        change_bit (λ m i. bit_and m (2 ^ 32 - 1 - 2 ^ i)) false (λ m i. omega arith) unmask_bits d
          irq j h l,
  )
