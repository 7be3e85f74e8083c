-- ===== src/UserCopy/Rounds.antt =====
-- The loops end, and no round crosses the end of a page.
use mango_os.Base.{
  ℕ, zero, suc, ◌-◌, ◌^◌, ◌<◌, ◌≤◌, ◌≡◌, ◌&&◌, ◌||◌, some, ◌==◌, ltb, leb, add32, arith, Bool-cases,
  inl, inr,
}
use mango_os.Page.{trans_vtop}
use mango_os.Strings.{word, Memory, kmemcpy}
use mango_os.UserCopy.{to_copy, from_loop, to_loop, copy_from_user_n, copy_to_user_n}

pub to_copy-progress :
    (addr size : ℕ) → 0 < size → (0 < to_copy addr size) × (to_copy addr size ≤ size)
unfolding to_copy
to_copy-progress addr size h = ground arith

pub to_loop-ends :
    (n pde to from size : ℕ) (m : Memory)
    → size < n
    → (m' : Memory) × (to_loop n pde to from size m ≡ some m')
unfolding to_loop
to_loop-ends zero pde to from size m h = absurd (omega arith)
to_loop-ends (suc n) pde to from size m h = elim (Bool-cases (size == 0)) [
  | inl e ↦ (m, ground arith)
  | inr e ↦
      let count = to_copy to size in
      let less = to_copy-progress to size (ground arith) in
      let (m', f) =
        to_loop-ends n pde (add32 to count) (add32 from count) (size - count)
          (kmemcpy m (trans_vtop pde to (word m)) from count) (omega (arith, less)) in
      (m', rw e f)
]

pub from_loop-ends :
    (n pde to from size : ℕ) (m : Memory)
    → size < n
    → (m' : Memory) × (from_loop n pde to from size m ≡ some m')
unfolding from_loop
from_loop-ends zero pde to from size m h = absurd (omega arith)
from_loop-ends (suc n) pde to from size m h = elim (Bool-cases (size == 0)) [
  | inl e ↦ (m, ground arith)
  | inr e ↦
      let count = to_copy from size in
      let less = to_copy-progress from size (ground arith) in
      let (m', f) =
        from_loop-ends n pde (add32 to count) (add32 from count) (size - count)
          (kmemcpy m to (trans_vtop pde from (word m)) count) (omega (arith, less)) in
      (m', rw e f)
]

-- With more fuel than bytes both copies end, and they report whether the user's address was accepted:
-- from 2 ^ 30 on, and below 2 ^ 31 for a copy from the user.
copy_user-ends :
    (fuel pde to from size : ℕ) (m : Memory)
    → size < fuel
    → ((m' : Memory) × (copy_from_user_n fuel pde to from size m
          ≡ some (leb (2 ^ 30) from && ltb from (2 ^ 31), m')))
      × ((m' : Memory) × (copy_to_user_n fuel pde to from size m ≡ some (leb (2 ^ 30) to, m')))
unfolding copy_from_user_n copy_to_user_n
copy_user-ends fuel pde to from size m h = (
  elim (Bool-cases (ltb from 0x40000000 || leb (2 ^ 31) from)) [
    | inl e ↦ (m, ground arith)
    | inr e ↦ let (m', f) = from_loop-ends fuel pde to from size m h in (m', ground (arith, f))
  ],
  elim (Bool-cases (ltb to 0x40000000)) [
    | inl e ↦ (m, ground arith)
    | inr e ↦ let (m', f) = to_loop-ends fuel pde to from size m h in (m', ground (arith, f))
  ],
)
