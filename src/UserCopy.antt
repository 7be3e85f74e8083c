-- ===== src/UserCopy.antt =====
-- copy_from_user and copy_to_user of source/kernel/task.c: copies between the kernel and the pages of
-- a task. Memory holds bytes; a page table entry is the word of four bytes at its address. The loops
-- take fuel; one more than the size is enough.
pub mod Places
pub mod Reads
pub mod Rounds
pub mod Writes
use mango_os.Base.{
  ℕ, zero, suc, ◌+◌, ◌-◌, ◌*◌, ◌/◌, ◌%◌, ◌^◌, Bool, true, false, ◌||◌, Option, none, some, ◌==◌,
  ltb, leb, if◌then◌else◌, add32,
}
use mango_os.Bitmap.{page_size}
use mango_os.Page.{trans_vtop}
use mango_os.Strings.{Memory, word, kmemcpy}

-- The bytes up to the end of the page, or fewer if fewer are left.
unfoldable pub to_copy : ℕ → ℕ → ℕ
to_copy addr size =
    if ltb size (page_size - addr % page_size) then size else page_size - addr % page_size

unfoldable pub from_loop : ℕ → ℕ → ℕ → ℕ → ℕ → Memory → Option Memory
from_loop zero pde to from size m = none
from_loop (suc n) pde to from size m =
    let count = to_copy from size in
    let paddr = trans_vtop pde from (word m) in
    let rest =
      from_loop n pde (add32 to count) (add32 from count) (size - count)
        (kmemcpy m to paddr count) in
    if size == 0 then some m else rest

-- `false` is -1. The address is compared as an `int`, so that one of 2 ^ 31 or more is refused; no
-- 32-bit number is more than 0xFFFFFFFF.
unfoldable pub copy_from_user_n : ℕ → ℕ → ℕ → ℕ → ℕ → Memory → Option (Bool × Memory)
unfolding from_loop
copy_from_user_n fuel pde to from size m =
    if ltb from 0x40000000 || leb (2 ^ 31) from
    then some (false, m)
    else elim (from_loop fuel pde to from size m) [ none ↦ none | some m' ↦ some (true, m') ]

unfoldable pub to_loop : ℕ → ℕ → ℕ → ℕ → ℕ → Memory → Option Memory
to_loop zero pde to from size m = none
to_loop (suc n) pde to from size m =
    let count = to_copy to size in
    let paddr = trans_vtop pde to (word m) in
    let rest =
      to_loop n pde (add32 to count) (add32 from count) (size - count)
        (kmemcpy m paddr from count) in
    if size == 0 then some m else rest

-- Here the address is compared as a `uint`.
unfoldable pub copy_to_user_n : ℕ → ℕ → ℕ → ℕ → ℕ → Memory → Option (Bool × Memory)
unfolding to_loop
copy_to_user_n fuel pde to from size m =
    if ltb to 0x40000000
    then some (false, m)
    else elim (to_loop fuel pde to from size m) [ none ↦ none | some m' ↦ some (true, m') ]
