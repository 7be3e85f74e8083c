-- ===== src/Tests/Paths.antt =====
-- Paths and bitmaps as bytes in memory.
use mango_os.Base.{
  ℕ, zero, suc, ◌<◌, ◌*◌, ◌^◌, ◌-◌, ◌≡◌, refl, none, ltb, ◌==◌, if◌then◌else◌, arith,
}
use mango_os.Strings.{Memory, word}
use mango_os.Ext2.Bits.{find_first_zero_bit}
use mango_os.Ext2.Bits.Search.{find_first_zero_bit_lem}

-- A text at address 10.
abbrev text : ℕ → Memory
text (zero) a =
    if a == 10
    then 47
    else if a == 11
    then 97
    else if a == 12
    then 98
    else if a == 13
    then 47
    else if a == 14
    then 99
    else 0
text (suc n) a =
    if a == 10
    then 97
    else if a == 11
    then 47
    else if a == 12
    then 98
    else if a == 13
    then 47
    else if a == 14
    then 99
    else 0

-- The first word is full, and in the second only the first block is taken.
abbrev taken : Memory
taken a = if ltb a 4 then 255 else if a == 4 then 1 else 0

taken-full : (k : ℕ) → k < 1 → word taken (4 * k) ≡ 2 ^ 32 - 1
taken-full zero h = refl
taken-full (suc k) h = absurd (omega arith)

find_first_zero_bit_lem_example : find_first_zero_bit 101 taken 64 ≡ none
find_first_zero_bit_lem_example =
    find_first_zero_bit_lem 100 taken 64 1 (omega arith) taken-full (omega arith)
