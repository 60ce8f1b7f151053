-- ===== src/Pic/Examples.antt =====
-- Controllers that are nothing but their masks, and the orders that are sent to them.
use white_os.Base.{ℕ, ◌%◌, ◌<◌, ◌≡◌, refl, true, false, List, [], ◌∷◌, arith, ◌==◌, if◌then◌else◌}
use white_os.Io.{Ports}
use white_os.Pic.{pic_mask, pic_unmask, pic_send_end_of_interrupt}
use white_os.Pic.Masks.{HasMasks, is_masked, pic_mask-pic_unmask}

abbrev masks : Ports (ℕ → ℕ)
masks = record {
  outb = λ d port value other. if other == port then value else d other;
  outw = λ d port value. d;
  insb = λ d port. (d port % 256, d);
  insw = λ d port. (0, d);
}

abbrev mask_of : (ℕ → ℕ) → ℕ → ℕ
mask_of d port = d port % 256

masks-HasMasks : HasMasks masks mask_of
masks-HasMasks = record {
  byte = λ d port. omega arith;
  read = λ d port p. refl;
  read_kept = λ d port other p. refl;
  written = λ d port value other p l. written (d other) port value other l;
}
  where
    written :
        (old port value other : ℕ)
        → value < 256
        → (if other == port then value else old) % 256
          ≡ (if other == port then value else old % 256)
    written old port value other l = ground arith

pic_mask-pic_unmask_example :
    ((j : ℕ)
      → j < 16
      → is_masked mask_of (pic_mask masks (λ p. 5) 9) j
        ≡ (if j == 9 then true else is_masked mask_of (λ p. 5) j))
    × ((j : ℕ)
        → j < 16
        → is_masked mask_of (pic_unmask masks (λ p. 5) 9) j
          ≡ (if j == 9 then false else is_masked mask_of (λ p. 5) j))
pic_mask-pic_unmask_example =
    pic_mask-pic_unmask masks mask_of masks-HasMasks (λ p. 5) 9 (omega arith)

-- The bytes that are sent, the last one first.
abbrev log : Ports (List (ℕ × ℕ))
log = record {
  outb = λ d port value. (port, value) ∷ d;
  outw = λ d port value. d;
  insb = λ d port. (0, d);
  insw = λ d port. (0, d);
}

-- The end of an interrupt of the second controller goes to it first, and then to the first.
end_of_second : pic_send_end_of_interrupt log [] 12 ≡ (0x20, 0x20) ∷ (0xA0, 0x20) ∷ []
unfolding pic_send_end_of_interrupt
end_of_second = refl
