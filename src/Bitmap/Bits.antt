-- ===== src/Bitmap/Bits.antt =====
-- What the bit operations do to every bit.
use mango_os.Base.{
  ℕ, zero, suc, ◌+◌, ◌-◌, ◌*◌, ◌/◌, ◌%◌, ◌<◌, ◌≤◌, ◌≡◌, refl, sym, ap, Bool, true, false, ◌&&◌,
  ◌==◌, ltb, leb, if◌then◌else◌, test_bit, test_bit-with_bit, with_bit-lt, arith, Bool-cases, inl,
  inr, ==→eq, ==→ne, ne→==,
}
use mango_os.Bitmap.{Bytes, write_bit, set_bits_up, set_bits_down, get_bit, set_bytes}

-- Every cell holds a byte.
abbrev pub IsBytes : Bytes → Type 0
IsBytes m = (a : ℕ) → m a < 256

-- Page `i` is in use.
abbrev pub used : Bytes → ℕ → Bool
used m i = test_bit (m (i / 8)) (i % 8)

pub get_bit-used : (m : Bytes) (i : ℕ) → get_bit m i ≡ (if used m i then 1 else 0)
unfolding get_bit
get_bit-used m i = ground arith

pub write_bit-IsBytes : (m : Bytes) (i : ℕ) (v : Bool) → IsBytes m → IsBytes (write_bit m i v)
unfolding write_bit
write_bit-IsBytes m i v h a =
    ground (arith, h a, with_bit-lt v (m (i / 8)) (i % 8) (h (i / 8)) (omega arith))

same_cell : (m : Bytes) (j i : ℕ) → j / 8 ≡ i / 8 → test_bit (m (i / 8)) (j % 8) ≡ used m j
same_cell m j i e = ap (λ n. test_bit (m n) (j % 8)) (sym e)

-- A write changes the bit that it names and no other.
pub used-write_bit :
    (m : Bytes) (i : ℕ) (v : Bool) (j : ℕ)
    → IsBytes m
    → used (write_bit m i v) j ≡ (if j == i then v else used m j)
unfolding write_bit
used-write_bit m i v j h = elim (Bool-cases (j / 8 == i / 8)) [
  | inl e ↦
      rw
        (e, test_bit-with_bit v (m (i / 8)) (i % 8) (j % 8) (h (i / 8)) (omega arith) (omega arith))
        (ground (arith, same_cell m j i (==→eq (j / 8) (i / 8) e)))
  | inr e ↦ rw (e, ne→== j i (λ q. ==→ne (j / 8) (i / 8) e (ap (λ n. n / 8) q)))
]

pub set_bits_up-IsBytes :
    (m : Bytes) (i : ℕ) (v : Bool) (n : ℕ) → IsBytes m → IsBytes (set_bits_up m i v n)
unfolding set_bits_up
set_bits_up-IsBytes m i v zero h = write_bit-IsBytes m i v h
set_bits_up-IsBytes m i v (suc zero) h = write_bit-IsBytes m i v h
set_bits_up-IsBytes m i v (suc (suc n)) h =
    set_bits_up-IsBytes (write_bit m i v) (i + 1) v (suc n) (write_bit-IsBytes m i v h)

-- Upwards, exactly the bits from `i` to `i + n - 1` take the value.
pub used-set_bits_up :
    (m : Bytes) (i : ℕ) (v : Bool) (n j : ℕ)
    → IsBytes m
    → 0 < n
    → used (set_bits_up m i v n) j ≡ (if leb i j && ltb j (i + n) then v else used m j)
unfolding set_bits_up
used-set_bits_up m i v zero j h p = elim p [ ]
used-set_bits_up m i v (suc zero) j h p = ground (arith, used-write_bit m i v j h)
used-set_bits_up m i v (suc (suc n)) j h p = ground (
  arith,
  used-set_bits_up (write_bit m i v) (i + 1) v (suc n) j (write_bit-IsBytes m i v h),
  used-write_bit m i v j h,
)

pub set_bits_down-IsBytes :
    (m : Bytes) (i : ℕ) (v : Bool) (n : ℕ) → IsBytes m → IsBytes (set_bits_down m i v n)
unfolding set_bits_down
set_bits_down-IsBytes m i v zero h = write_bit-IsBytes m (i - 1) v h
set_bits_down-IsBytes m i v (suc zero) h = write_bit-IsBytes m (i - 1) v h
set_bits_down-IsBytes m i v (suc (suc n)) h =
    set_bits_down-IsBytes (write_bit m (i - 1) v) (i - 1) v (suc n)
      (write_bit-IsBytes m (i - 1) v h)

-- Downwards, exactly the bits from `i - n` to `i - 1` take the value.
pub used-set_bits_down :
    (m : Bytes) (i : ℕ) (v : Bool) (n j : ℕ)
    → IsBytes m
    → 0 < n
    → n ≤ i
    → used (set_bits_down m i v n) j ≡ (if leb (i - n) j && ltb j i then v else used m j)
unfolding set_bits_down
used-set_bits_down m i v zero j h p q = elim p [ ]
used-set_bits_down m i v (suc zero) j h p q = ground (arith, used-write_bit m (i - 1) v j h)
used-set_bits_down m i v (suc (suc n)) j h p q = ground (
  arith,
  used-set_bits_down (write_bit m (i - 1) v) (i - 1) v (suc n) j (write_bit-IsBytes m (i - 1) v h),
  used-write_bit m (i - 1) v j h,
)

pub set_bytes-IsBytes : (m : Bytes) (s n : ℕ) (v : Bool) → IsBytes m → IsBytes (set_bytes m s n v)
unfolding set_bytes
set_bytes-IsBytes m s n v h a = ground (arith, h a)

-- A whole byte has all bits set, or none.
byte_full : (k : ℕ) → k < 8 → (test_bit 255 k ≡ true) × (test_bit 0 k ≡ false)
byte_full zero h = (refl, refl)
byte_full (suc zero) h = (refl, refl)
byte_full (suc (suc zero)) h = (refl, refl)
byte_full (suc (suc (suc zero))) h = (refl, refl)
byte_full (suc (suc (suc (suc zero)))) h = (refl, refl)
byte_full (suc (suc (suc (suc (suc zero))))) h = (refl, refl)
byte_full (suc (suc (suc (suc (suc (suc zero)))))) h = (refl, refl)
byte_full (suc (suc (suc (suc (suc (suc (suc zero))))))) h = (refl, refl)
byte_full (suc (suc (suc (suc (suc (suc (suc (suc k)))))))) h = absurd (omega arith)

full_byte : (v : Bool) (k : ℕ) → k < 8 → test_bit (if v then 255 else 0) k ≡ v
full_byte true k h = (byte_full k h).0
full_byte false k h = (byte_full k h).1

-- Filling bytes gives the value to all their bits.
pub used-set_bytes :
    (m : Bytes) (s n : ℕ) (v : Bool) (j : ℕ)
    → used (set_bytes m s n v) j ≡ (if leb (s * 8) j && ltb j ((s + n) * 8) then v else used m j)
unfolding set_bytes
used-set_bytes m s n v j = elim (Bool-cases (leb s (j / 8) && ltb (j / 8) (s + n))) [
  | inl e ↦
      let g : (leb (s * 8) j && ltb j ((s + n) * 8)) ≡ true = ground arith in
      rw (e, g) (full_byte v (j % 8) (omega arith))
  | inr e ↦ let g : (leb (s * 8) j && ltb j ((s + n) * 8)) ≡ false = ground arith in rw (e, g)
]
