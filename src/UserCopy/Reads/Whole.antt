-- ===== src/UserCopy/Reads/Whole.antt =====
-- The whole of a copy from the user: round after round.
use mango_os.Base.{
  ℕ, zero, suc, ◌+◌, ◌-◌, ◌^◌, ◌<◌, ◌≤◌, ◌≡◌, ◌≢◌, inl, inr, refl, sym, ap, ◌∙◌, true, false, ◌||◌,
  some, ◌==◌, ltb, leb, add32, arith, Bool-cases,
}
use mathlib.Core.Path.{subst}
use mango_os.Page.{trans_vtop}
use mango_os.Strings.{word, Memory, kmemcpy}
use mango_os.UserCopy.{to_copy, from_loop, copy_from_user_n}
use mango_os.UserCopy.Rounds.{to_copy-progress, from_loop-ends}
use mango_os.UserCopy.Reads.{
  Copied, Elsewhere, Readable, Readable-Elsewhere, round-Copied, trans_vtop-Elsewhere,
}

-- Two copies, one behind the other.
join-Copied :
    (m m1 m' : Memory) (pde to from size count : ℕ)
    → count ≤ size
    → ((i : ℕ) → i < size → Readable m pde to size (from + i))
    → Copied m m1 pde to from count
    → Copied m1 m' pde (to + count) (from + count) (size - count)
    → Copied m m' pde to from size
join-Copied m m1 m' pde to from size count le r first rest = record {
  bytes = at;
  others =
      λ a out. rest.others a (omega (arith, out, le)) ∙ first.others a (omega (arith, out, le));
}
  where
    within : Elsewhere to size m m1
    within a out = first.others a (omega (arith, out, le))

    -- The byte of the second copy is where it was before the first, and as it was.
    source :
        (v : ℕ)
        → Readable m pde to size v
        → m1 (trans_vtop pde v (word m1)) ≡ m (trans_vtop pde v (word m))
    source v q =
        ap m1 (trans_vtop-Elsewhere m m1 pde to size v within q)
        ∙ within (trans_vtop pde v (word m)) q.byte_apart

    at : (i : ℕ) → i < size → m' (to + i) ≡ m (trans_vtop pde (from + i) (word m))
    at i l = elim (Bool-cases (ltb i count)) [
      | inl e ↦ rest.others (to + i) (inl (ground arith)) ∙ first.bytes i (ground arith)
      | inr e ↦
          let k : count + (i - count) ≡ i = ground arith in
          let from_at : from + count + (i - count) ≡ from + i = omega (arith, k) in
          let to_at : to + count + (i - count) ≡ to + i = omega (arith, k) in
          ap m' (sym to_at)
          ∙ rest.bytes (i - count) (ground (arith, l))
          ∙ ap (λ v. m1 (trans_vtop pde v (word m1))) from_at
          ∙ source (from + i) (r i l)
    ]

from_loop-goes_on :
    (n pde to from size : ℕ) (m : Memory)
    → let count = to_copy from size in
      (size == 0) ≡ false
      → to + count < 2 ^ 32
      → from + count < 2 ^ 32
      → from_loop (suc n) pde to from size m
        ≡ from_loop n pde
            (to + count)
            (from + count)
            (size - count)
            (kmemcpy m to (trans_vtop pde from (word m)) count)
unfolding from_loop
from_loop-goes_on n pde to from size m z h k =
    let e : add32 to (to_copy from size) ≡ to + to_copy from size = omega (arith, h) in
    let f : add32 from (to_copy from size) ≡ from + to_copy from size = omega (arith, k) in
    rw (z, e, f) refl

from_loop-Copied :
    (n pde to from size : ℕ) (m m' : Memory)
    → size < 2 ^ 31
    → to ≢ 0
    → to + size < 2 ^ 32
    → from + size < 2 ^ 32
    → ((i : ℕ) → i < size → Readable m pde to size (from + i))
    → from_loop n pde to from size m ≡ some m'
    → Copied m m' pde to from size
unfolding from_loop
from_loop-Copied zero pde to from size m m' small ne fits fits' r e = absurd (ground arith)
from_loop-Copied (suc n) pde to from size m m' small ne fits fits' r e =
    elim (Bool-cases (size == 0)) [
      | inl z ↦ record { bytes = λ i l. absurd (ground arith); others = λ a out. ground arith }
      | inr z ↦
          let count = to_copy from size in
          let pos : 0 < size = ground arith in
          let less = to_copy-progress from size pos in
          let m1 = kmemcpy m to (trans_vtop pde from (word m)) count in
          let first = round-Copied m pde to from size pos small ne r in
          let within : Elsewhere to size m m1 =
            λ a out. first.others a (omega (arith, out, less)) in
          let next : (i : ℕ)
              → i < size - count
              → Readable m1 pde (to + count) (size - count) (from + count + i) =
            λ i l. Readable-Elsewhere m m1 pde to size count (from + count + i) less.1 within (
              subst (Readable m pde to size) (omega arith)
                (r (count + i) (omega (arith, l, less)))) in
          let same : from_loop n pde (to + count) (from + count) (size - count) m1 ≡ some m' =
            sym
              (from_loop-goes_on n pde to from size m z (omega (arith, less)) (omega (arith, less)))
            ∙ e in
          let rest =
            from_loop-Copied n pde (to + count) (from + count) (size - count) m1 m'
              (omega (arith, small)) (ground (arith, ne)) (omega (arith, less))
              (omega (arith, less)) next same in
          join-Copied m m1 m' pde to from size count less.1 r first rest
    ]

-- With fuel for every byte, `copy_from_user` of a part of the user's memory that lies between 2 ^ 30 and
-- 2 ^ 31 and has pages ends and reports success, if the area that it fills lies apart from these pages
-- and from the tables on the way to them. The area holds the user's bytes, and no other byte has changed.
pub copy_from_user-Copied :
    (fuel pde to from size : ℕ) (m : Memory)
    → size < fuel
    → to ≢ 0
    → to + size < 2 ^ 32
    → 2 ^ 30 ≤ from
    → from + size < 2 ^ 31
    → ((i : ℕ) → i < size → Readable m pde to size (from + i))
    → (m' : Memory) × (copy_from_user_n fuel pde to from size m ≡ some (true, m'))
      × Copied m m' pde to from size
unfolding copy_from_user_n
copy_from_user-Copied fuel pde to from size m h ne fits low high r =
    let (m', e) = from_loop-ends fuel pde to from size m h in
    let ok : (ltb from 0x40000000 || leb (2 ^ 31) from) ≡ false = ground arith in
    (
      m',
      rw (ok, e) refl,
      from_loop-Copied fuel pde to from size m m' (omega arith) ne fits (omega arith) r e,
    )
