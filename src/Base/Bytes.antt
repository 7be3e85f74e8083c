-- ===== src/Base/Bytes.antt =====
-- Single bits of bytes: the laws of `|=` and `&= ~` by a table over all bytes.
use Prim.Native.Nat.{ℕ, zero, suc, ◌-◌, ◌^◌, ◌<◌, bit_and, bit_or}
use mathlib.Core.Path.{◌≡◌, refl, sym}
use mathlib.Core.Bool.{Bool, true, false, not, ◌&&◌}
use native.Mathlib.Omega.{arith}
use mango_os.Base.Tests.{◌==◌, ltb, if◌then◌else◌}

-- The test holds for every number below the bound.
unfoldable pub every_below : ℕ → (ℕ → Bool) → Bool
every_below zero test = true
every_below (suc bound) test = test bound && every_below bound test

pub every_below-at :
    (bound : ℕ) (test : ℕ → Bool) (i : ℕ)
    → every_below bound test ≡ true
    → i < bound
    → test i ≡ true
unfolding every_below
every_below-at zero test i all below = absurd (omega arith)
every_below-at (suc bound) test i all below = ground (arith, every_below-at bound test i)

-- `b & (1 << k)`, as a test.
abbrev pub test_bit : ℕ → ℕ → Bool
test_bit b k = not (bit_and b (2 ^ k) == 0)

-- `b |= 1 << k` and `b &= ~(1 << k)`, for an `unsigned char`.
abbrev pub with_bit : Bool → ℕ → ℕ → ℕ
with_bit true b k = bit_or b (2 ^ k)
with_bit false b k = bit_and b (255 - 2 ^ k)

agrees : Bool → Bool → Bool
agrees true b = b
agrees false b = not b

agrees_sound : (a b : Bool) → agrees a b ≡ true → a ≡ b
unfolding agrees
agrees_sound true b h = sym h
agrees_sound false true h = h
agrees_sound false false h = refl

bit_table : Bool → Bool
unfolding agrees
bit_table v = every_below 256 λ b. every_below 8 λ k.
    ltb (with_bit v b k) 256
    && every_below 8 λ j. agrees (test_bit (with_bit v b k) j) (if j == k then v else test_bit b j)

bit_table-true : (v : Bool) → bit_table v ≡ true
unfolding bit_table every_below
bit_table-true true = refl
bit_table-true false = refl

bit_table_entry :
    (v : Bool) (b k : ℕ)
    → b < 256
    → k < 8
    → (ltb (with_bit v b k) 256
        && every_below 8
            λ j. agrees (test_bit (with_bit v b k) j) (if j == k then v else test_bit b j))
      ≡ true
unfolding bit_table
bit_table_entry v b k hb hk = every_below-at 8 _ k (every_below-at 256 _ b (bit_table-true v) hb) hk

-- Setting or clearing a bit gives that bit its value and leaves the others alone.
pub test_bit-with_bit :
    (v : Bool) (b k j : ℕ)
    → b < 256
    → k < 8
    → j < 8
    → test_bit (with_bit v b k) j ≡ (if j == k then v else test_bit b j)
test_bit-with_bit v b k j hb hk hj = agrees_sound _ _ (
    every_below-at 8
      (λ j. agrees (test_bit (with_bit v b k) j) (if j == k then v else test_bit b j)) j
      (and_right _ _ (bit_table_entry v b k hb hk)) hj)
  where
    and_right : (x y : Bool) → (x && y) ≡ true → y ≡ true
    and_right true y h = h
    and_right false y h = cc

pub with_bit-lt : (v : Bool) (b k : ℕ) → b < 256 → k < 8 → with_bit v b k < 256
with_bit-lt v b k hb hk = lt_of (with_bit v b k) _ (bit_table_entry v b k hb hk)
  where
    lt_of : (x : ℕ) (y : Bool) → (ltb x 256 && y) ≡ true → x < 256
    lt_of x y h = ground arith
