-- ===== src/Bitmap/Init.antt =====
-- Which pages `bitmap_init` frees for a usable region.
pub mod Map
use mango_os.Base.{
  ℕ, zero, suc, ◌+◌, ◌-◌, ◌*◌, ◌/◌, ◌%◌, ◌^◌, ◌<◌, ◌≤◌, ◌≡◌, refl, Bool, true, false, not, ◌&&◌,
  arith, ◌==◌, ltb, leb, if◌then◌else◌, Bool-cases, inl, inr, add32, sub32, is_pos32,
}
use mango_os.Bitmap.{
  Bytes, free_region, set_bits_up, set_bits_down, set_bytes, low_part, high_part, first_byte,
  whole_bytes,
}
use mango_os.Bitmap.Bits.{
  IsBytes, used, used-set_bits_up, set_bits_up-IsBytes, used-set_bits_down, set_bits_down-IsBytes,
  used-set_bytes, set_bytes-IsBytes,
}

low_part-IsBytes : (m : Bytes) (start : ℕ) → IsBytes m → IsBytes (low_part m start)
unfolding low_part
low_part-IsBytes m start h = elim (Bool-cases (start % 8 == 0)) [
  | inl e ↦ rw e h
  | inr e ↦ rw e (set_bits_up-IsBytes m start false (8 - start % 8) h)
]

used-low_part :
    (m : Bytes) (start p : ℕ)
    → IsBytes m
    → used (low_part m start) p
      ≡ (if leb start p && ltb p ((start + 7) / 8 * 8) then false else used m p)
unfolding low_part
used-low_part m start p h = ground (arith, used-set_bits_up m start false (8 - start % 8) p h)

used-high_part :
    (m : Bytes) (end p : ℕ)
    → IsBytes m
    → used (high_part m end) p ≡ (if leb (end / 8 * 8) p && ltb p end then false else used m p)
unfolding high_part
used-high_part m end p h = ground (arith, used-set_bits_down m end false (end % 8) p h)

used-whole_bytes :
    (m : Bytes) (start end p : ℕ)
    → start < 2 ^ 29
    → end < 2 ^ 29
    → used (whole_bytes m start end) p
      ≡ (if leb (start * 8) p && ltb p (end * 8) then false else used m p)
unfolding whole_bytes
used-whole_bytes m start end p hs he =
    ground (arith, used-set_bytes m start (sub32 end start) false p)

-- A region that reaches from one byte of the bitmap into another or fills one: exactly its pages
-- become free.
pub used-free_region :
    (m : Bytes) (start end p : ℕ)
    → IsBytes m
    → (start + 7) / 8 ≤ end / 8
    → end < 2 ^ 32
    → used (free_region m start end) p ≡ (if leb start p && ltb p end then false else used m p)
unfolding free_region
used-free_region m start end p h le small = ground (
  arith,
  used-whole_bytes (high_part (low_part m start) end) (first_byte start) (end / 8) p,
  used-high_part (low_part m start) end p (low_part-IsBytes m start h),
  used-low_part m start p h,
)

-- A region inside one byte of the bitmap that does not begin with it: the pages behind the region,
-- up to the end of that byte, become free as well.
pub free_region_too_much :
    (m : Bytes) (start end p : ℕ)
    → IsBytes m
    → start ≤ end
    → end ≤ p
    → p < (start + 7) / 8 * 8
    → start + 8 < 2 ^ 32
    → used (free_region m start end) p ≡ false
unfolding free_region
free_region_too_much m start end p h le out below small = ground (
  arith,
  used-whole_bytes (high_part (low_part m start) end) (first_byte start) (end / 8) p,
  used-high_part (low_part m start) end p (low_part-IsBytes m start h),
  used-low_part m start p h,
)

high_part-IsBytes : (m : Bytes) (end : ℕ) → IsBytes m → IsBytes (high_part m end)
unfolding high_part
high_part-IsBytes m end h = elim (Bool-cases (end % 8 == 0)) [
  | inl e ↦ rw e h
  | inr e ↦ rw e (set_bits_down-IsBytes m end false (end % 8) h)
]

whole_bytes-IsBytes : (m : Bytes) (start end : ℕ) → IsBytes m → IsBytes (whole_bytes m start end)
unfolding whole_bytes
whole_bytes-IsBytes m start end h = elim (Bool-cases (is_pos32 (sub32 end start))) [
  | inl e ↦ rw e (set_bytes-IsBytes m start (sub32 end start) false h)
  | inr e ↦ rw e h
]

pub free_region-IsBytes :
    (m : Bytes) (start end : ℕ) → IsBytes m → IsBytes (free_region m start end)
unfolding free_region
free_region-IsBytes m start end h =
    whole_bytes-IsBytes (high_part (low_part m start) end) (first_byte start) (end / 8)
      (high_part-IsBytes (low_part m start) end (low_part-IsBytes m start h))
