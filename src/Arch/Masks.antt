-- ===== src/Arch/Masks.antt =====
-- The masks of the two interrupt controllers as one row of sixteen bits.
use mango_os.Base.{
  ℕ, ◌+◌, ◌-◌, ◌%◌, ◌^◌, ◌<◌, ◌≡◌, refl, Bool, true, false, ◌||◌, ◌==◌, ltb, if◌then◌else◌, arith,
  test_bit, with_bit, test_bit-with_bit, every_below, every_below-at, ==→eq,
}
use mango_os.Arch.{Ports, mask_bit, enable_8259, disable_8259, outb}

-- Interrupt `0x20 + j` is masked.
abbrev pub masked : Ports → ℕ → Bool
masked p j = if ltb j 8 then test_bit (p 0x21) j else test_bit (p 0xa1) (j - 8)

-- For a bit of a byte, masking in 32 bits and writing a byte is what `with_bit` does.
mask_table :
    (v : Bool)
    → every_below 256 (λ b. every_below 8 λ k. mask_bit v b k % 2 ^ 8 == with_bit v b k) ≡ true
unfolding every_below
mask_table true = refl
mask_table false = refl

mask_bit-byte : (v : Bool) (b k : ℕ) → b < 256 → k < 8 → mask_bit v b k % 2 ^ 8 ≡ with_bit v b k
mask_bit-byte v b k hb hk = ==→eq (mask_bit v b k % 2 ^ 8) (with_bit v b k) (
    every_below-at 8 (λ j. mask_bit v b j % 2 ^ 8 == with_bit v b j) k
      (every_below-at 256 (λ x. every_below 8 λ j. mask_bit v x j % 2 ^ 8 == with_bit v x j) b
        (mask_table v) hb)
      hk)

mask_bit-test :
    (v : Bool) (b k j : ℕ)
    → b < 256
    → k < 8
    → j < 8
    → test_bit (mask_bit v b k % 2 ^ 8) j ≡ (if j == k then v else test_bit b j)
mask_bit-test v b k j hb hk hj = rw (mask_bit-byte v b k hb hk) (test_bit-with_bit v b k j hb hk hj)

-- `enable_8259` takes the mask off the interrupt, and `disable_8259` puts it on; the other fifteen
-- stay as they are.
pub enable_8259-masked :
    (p : Ports) (n j : ℕ)
    → p 0x21 < 256
    → p 0xa1 < 256
    → n < 16
    → j < 16
    → (masked (enable_8259 p (0x20 + n)) j ≡ (if j == n then false else masked p j))
      × (masked (disable_8259 p (0x20 + n)) j ≡ (if j == n then true else masked p j))
unfolding enable_8259 disable_8259
enable_8259-masked p n j a b hn hj = (half false, half true)
  where
    half :
        (v : Bool)
        → masked
            (if ltb (0x20 + n) 0x20 || ltb 0x30 (0x20 + n)
              then p
              else if ltb (0x20 + n - 0x20) 8
              then outb p 0x21 (mask_bit v (p 0x21) (0x20 + n - 0x20))
              else outb p 0xa1 (mask_bit v (p 0xa1) (0x20 + n - 0x20 - 8)))
            j
          ≡ (if j == n then v else masked p j)
    half v = ground (
      arith,
      mask_bit-test v (p 0x21) (0x20 + n - 0x20) j a,
      mask_bit-test v (p 0xa1) (0x20 + n - 0x20 - 8) (j - 8) b,
    )
