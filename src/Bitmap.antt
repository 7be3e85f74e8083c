-- ===== src/Bitmap.antt =====
-- source/mm/bitmap.c and source/include/bitmap.h: one bit for each page of 4096 bytes, set while
-- the page is in use. The bytes behind `bitmap.base` are a function from the byte's index.
pub mod Bits
pub mod Scan
pub mod Alloc
pub mod Init
use Prim.Native.Nat.{bit_and}
use mango_os.Base.{
  ℕ, zero, suc, ◌+◌, ◌-◌, ◌/◌, ◌%◌, ◌^◌, Bool, true, false, not, Option, none, some, List, [], ◌∷◌,
  ◌==◌, ltb, leb, if◌then◌else◌, update, with_bit, ◌&&◌, ◌*◌, add32, sub32, is_pos32,
}

abbrev pub Bytes : Type 0
Bytes = ℕ → ℕ

-- `bit_map_t`
pub record Bitmap : Type 0 where
  pub nbits : ℕ
  pub base : Bytes

abbrev pub page_size : ℕ
page_size = 4096

abbrev pub free_mem_start : ℕ
free_mem_start = 0x601000

-- `mem_layout_t`: one entry of the memory map that the loader reads from the BIOS.
pub record MemLayout : Type 0 where
  pub start : ℕ
  pub size : ℕ
  pub type : ℕ

-- `kmemset` of `nbytes` bytes from `sbytes` on.
unfoldable pub set_bytes : Bytes → ℕ → ℕ → Bool → Bytes
set_bytes m sbytes nbytes used a =
    if leb sbytes a && ltb a (sbytes + nbytes) then (if used then 0xff else 0) else m a

-- The body of the loop of `bitmap_set_bits` at bit `i`.
unfoldable pub write_bit : Bytes → ℕ → Bool → Bytes
write_bit m i bit = update m (i / 8) (with_bit bit (m (i / 8)) (i % 8))

-- `bitmap_set_bits(bitmap, i, bit, count, 1)`: the loop tests its count behind the body.
unfoldable pub set_bits_up : Bytes → ℕ → Bool → ℕ → Bytes
set_bits_up m i bit zero = write_bit m i bit
set_bits_up m i bit (suc zero) = write_bit m i bit
set_bits_up m i bit (suc (suc n)) = set_bits_up (write_bit m i bit) (i + 1) bit (suc n)

-- `bitmap_set_bits(bitmap, i, bit, count, 0)`: from bit `i - 1` downwards.
unfoldable pub set_bits_down : Bytes → ℕ → Bool → ℕ → Bytes
set_bits_down m i bit zero = write_bit m (i - 1) bit
set_bits_down m i bit (suc zero) = write_bit m (i - 1) bit
set_bits_down m i bit (suc (suc n)) = set_bits_down (write_bit m (i - 1) bit) (i - 1) bit (suc n)

unfoldable pub get_bit : Bytes → ℕ → ℕ
get_bit m i = if bit_and (m (i / 8)) (2 ^ (i % 8)) == 0 then 0 else 1

-- The loop of `bitmap_alloc_bits` with the rounds that `cur_index < nbits` leaves.
unfoldable pub scan : Bytes → ℕ → ℕ → ℕ → ℕ → Option ℕ
scan m count zero cur begin = none
scan m count (suc n) cur begin =
    let restart = scan m count n (cur + 1) (cur + 1) in
    let extend = scan m count n (cur + 1) begin in
    if not (get_bit m cur == 0)
    then restart
    else (if leb count (cur + 1 - begin) then some begin else extend)

-- `none` is -1.
unfoldable pub alloc_bits : Bitmap → ℕ → Option ℕ × Bitmap
alloc_bits b count = elim (scan b.base count b.nbits 0 0) [
  | none ↦ (none, b)
  | some i ↦ (some i, record b { base = set_bits_up b.base i true count })
]

unfoldable pub free_bits : Bitmap → ℕ → ℕ → Bitmap
free_bits b addr count = record b { base = set_bits_up b.base (addr / page_size) false count }

-- The page that a usable region begins with: the kernel keeps what is below `free_mem_start`.
abbrev pub first_page : MemLayout → ℕ
first_page l =
    (if ltb l.start free_mem_start
      then (free_mem_start + (page_size - 1)) / page_size
      else (l.start + (page_size - 1)) / page_size)
    % 2 ^ 32

-- The page behind the last whole page of a region.
abbrev pub end_page : MemLayout → ℕ
end_page l = (l.start + l.size) / page_size % 2 ^ 32

-- The pages from the start of a region to the next whole byte.
unfoldable pub low_part : Bytes → ℕ → Bytes
low_part m start = if start % 8 == 0 then m else set_bits_up m start false (8 - start % 8)

abbrev pub first_byte : ℕ → ℕ
first_byte start = if start % 8 == 0 then start / 8 else add32 start 7 / 8

-- The pages from the last whole byte to the end of a region.
unfoldable pub high_part : Bytes → ℕ → Bytes
high_part m end = if end % 8 == 0 then m else set_bits_down m end false (end % 8)

-- The bytes in between. `kmemset` ignores a size that is not positive as an `int`.
unfoldable pub whole_bytes : Bytes → ℕ → ℕ → Bytes
whole_bytes m start end =
    let nbytes = sub32 end start in if is_pos32 nbytes then set_bytes m start nbytes false else m

-- The part of the loop body behind the two tests that skip an entry.
unfoldable pub free_region : Bytes → ℕ → ℕ → Bytes
free_region m start end =
    whole_bytes (high_part (low_part m start) end) (first_byte start) (end / 8)

-- The body of the loop of `bitmap_init`.
unfoldable pub mark_entry : Bytes → MemLayout → Bytes
unfolding free_region
mark_entry m l =
    if not (l.type == 1)
    then m
    else (if leb (l.start + l.size) free_mem_start
        then m
        else free_region m (first_page l) (end_page l))

-- The loop over the memory map: it ends before an entry that starts at 0.
unfoldable pub init_loop : Bytes → ℕ → MemLayout → List MemLayout → Bytes × ℕ
unfolding mark_entry
init_loop m nsize l [] = (mark_entry m l, add32 nsize l.size)
init_loop m nsize l (l' ∷ ls) =
    let rest = init_loop (mark_entry m l) (add32 nsize l.size) l' ls in
    if l'.start == 0 then (mark_entry m l, add32 nsize l.size) else rest

unfoldable pub bitmap_init : Bytes → MemLayout → List MemLayout → Bitmap
unfolding init_loop set_bytes
bitmap_init m l ls =
    let (base, nsize) = init_loop (set_bytes m 0 (128 * 1024) true) 0 l ls in
    record {
      nbits =
          if nsize % page_size == 0
          then nsize / page_size
          else add32 nsize (page_size - 1) / page_size;
      base = base;
    }
