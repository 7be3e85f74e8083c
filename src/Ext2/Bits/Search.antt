-- ===== src/Ext2/Bits/Search.antt =====
-- What the search for a free bit finds, and what set_bit writes.
use Prim.Native.Nat.{bit_or}
use mathlib.Core.Path.{fun_ext}
use mango_os.Base.{
  ℕ, zero, suc, ◌+◌, ◌-◌, ◌*◌, ◌/◌, ◌%◌, ◌^◌, ◌<◌, ◌≤◌, ◌≡◌, ◌≢◌, ◌∙◌, refl, Bool, true, none, some,
  ◌==◌, if◌then◌else◌, arith, Bool-cases, inl, inr, every_below, every_below-at, ==→eq, ==→ne,
}
use mango_os.Strings.{Memory, word}
use mango_os.Bitmap.Bits.{IsBytes, used, used-write_bit}
use mango_os.Bitmap.{write_bit}
use mango_os.Ext2.Bits.{set_bit, ffs_loop, ffs, complement, find_loop, find_first_zero_bit}

-- With an even word other than 0 the loop runs for ever.
ffs_loop-none : (fuel w bit : ℕ) → w % 2 ≡ 0 → ffs_loop fuel w bit ≡ none
unfolding ffs_loop
ffs_loop-none zero w bit h = refl
ffs_loop-none (suc n) w bit h = ground (arith, ffs_loop-none n w (bit + 1))

ffs_lem : (fuel w : ℕ) → w ≢ 0 → ffs (suc fuel) w ≡ (if w % 2 == 0 then none else some 1)
unfolding ffs ffs_loop
ffs_lem fuel w ne = ground (arith, ffs_loop-none fuel w 2)

find_loop-open :
    (fuel n i : ℕ) (m : Memory) (size : ℕ)
    → word m (4 * i) < 2 ^ 32 - 1
    → find_loop (suc fuel) m size (suc n) i
      ≡ (if word m (4 * i) % 2 == 0 then some (32 * i + 1) else none)
unfolding find_loop
find_loop-open fuel n i m size h =
    ground (arith, ffs_lem fuel (complement (word m (4 * i))) (λ e. omega arith))

find_loop-full :
    (fuel n i : ℕ) (m : Memory) (size : ℕ)
    → word m (4 * i) ≡ 2 ^ 32 - 1
    → find_loop (suc fuel) m size (suc n) i ≡ find_loop (suc fuel) m size n (i + 1)
unfolding find_loop
find_loop-full fuel n i m size h = ground arith

find_loop_lem :
    (fuel n i j : ℕ) (m : Memory) (size : ℕ)
    → i ≤ j
    → j < i + n
    → ((k : ℕ) → i ≤ k → k < j → word m (4 * k) ≡ 2 ^ 32 - 1)
    → word m (4 * j) < 2 ^ 32 - 1
    → find_loop (suc fuel) m size n i
      ≡ (if word m (4 * j) % 2 == 0 then some (32 * j + 1) else none)
find_loop_lem fuel zero i j m size lo hi full open_word = absurd (omega arith)
find_loop_lem fuel (suc n) i j m size lo hi full open_word = elim (Bool-cases (i == j)) [
  | inl e ↦ rw (==→eq i j e) (find_loop-open fuel n j m size open_word)
  | inr e ↦
      find_loop-full fuel n i m size (full i (omega arith) (ground (arith, ==→ne i j e)))
      ∙ find_loop_lem fuel n (i + 1) j m size (ground (arith, ==→ne i j e)) (omega arith)
          (λ k a b. full k (omega arith) b) open_word
]

-- When the first word with a free bit is word `j`, the search answers the bit after the word's first
-- if that first bit is free, although the bit it answers may be taken; otherwise the loop of `ffs`,
-- which never changes its word, runs out of whatever fuel it is given.
pub find_first_zero_bit_lem :
    (fuel : ℕ) (m : Memory) (size j : ℕ)
    → j < size / 32
    → ((k : ℕ) → k < j → word m (4 * k) ≡ 2 ^ 32 - 1)
    → word m (4 * j) < 2 ^ 32 - 1
    → find_first_zero_bit (suc fuel) m size
      ≡ (if word m (4 * j) % 2 == 0 then some (32 * j + 1) else none)
unfolding find_first_zero_bit
find_first_zero_bit_lem fuel m size j below full open_word =
    find_loop_lem fuel (size / 32) 0 j m size (omega arith) (omega arith) (λ k _ lt. full k lt)
      open_word

-- The `or` with 0 of a byte is the byte.
or_zero_table : Bool
or_zero_table = every_below 256 λ b. bit_or b 0 == b

or_zero_table-true : or_zero_table ≡ true
unfolding or_zero_table every_below
or_zero_table-true = refl

bit_or-zero : (b : ℕ) → b < 256 → bit_or b 0 ≡ b
unfolding or_zero_table
bit_or-zero b h = ==→eq _ _ (every_below-at 256 (λ b. bit_or b 0 == b) b or_zero_table-true h)

-- In a memory of bytes, set_bit with flag 1 puts one bit in use and changes no other; with flag 0,
-- which is to free the bit, it changes nothing.
pub set_bit_lem :
    (m : Memory) (i j : ℕ)
    → IsBytes m
    → (used (set_bit m i 1) j ≡ (if j == i then true else used m j)) × (set_bit m i 0 ≡ m)
unfolding set_bit write_bit
set_bit_lem m i j h =
    (used-write_bit m i true j h, fun_ext λ a. ground (arith, bit_or-zero (m (i / 8)) (h (i / 8))))
