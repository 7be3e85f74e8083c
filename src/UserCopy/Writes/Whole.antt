-- ===== src/UserCopy/Writes/Whole.antt =====
-- The whole of a copy to the user: round after round.
use mango_os.Base.{
  ℕ, zero, suc, ◌+◌, ◌-◌, ◌^◌, ◌<◌, ◌≤◌, ◌≡◌, ◌≢◌, inl, inr, refl, sym, ap, ◌∙◌, true, false, some,
  ◌==◌, ltb, add32, arith, Bool-cases,
}
use mango_os.Strings.{Memory, kmemcpy}
use mango_os.UserCopy.{to_copy, to_loop, copy_to_user_n}
use mango_os.UserCopy.Rounds.{to_copy-progress, to_loop-ends}
use mango_os.UserCopy.Writes.{
  Copied, Elsewhere, Writable, place, rest-Elsewhere, rest-Writable, rest-place, round-Copied,
}

-- Two copies, one behind the other.
join-Copied :
    (m m1 m' : Memory) (pde to from size count : ℕ)
    → count ≤ size
    → Writable m pde to from size
    → Copied m m1 pde to from count
    → Copied m1 m' pde (to + count) (from + count) (size - count)
    → Copied m m' pde to from size
join-Copied m m1 m' pde to from size count le r first rest = record {
  bytes = at;
  others = λ a out.
      rest.others a (rest-Elsewhere m m1 pde to from size count le r within a out) ∙ within a out;
}
  where
    within : (a : ℕ) → Elsewhere m pde to size a → m1 a ≡ m a
    within a out = first.others a (λ i l. out i (omega (arith, le, l)))

    at : (i : ℕ) → i < size → m' (place m pde (to + i)) ≡ m (from + i)
    at i l = elim (Bool-cases (ltb i count)) [
      | inl e ↦
          let first_part : i < count = ground arith in
          let untouched : Elsewhere m1 pde (to + count) (size - count) (place m pde (to + i)) =
            λ j k e'.
              let clash : i ≡ count + j =
                r.distinct i (count + j) l (omega (arith, le, k))
                  (e' ∙ rest-place m m1 pde to from size count le r within j k) in
              absurd (omega (arith, first_part, clash)) in
          rest.others (place m pde (to + i)) untouched ∙ first.bytes i first_part
      | inr e ↦
          let j = i - count in
          let less : j < size - count = ground (arith, l) in
          let k : count + j ≡ i = ground arith in
          let from_at : from + count + j ≡ from + i = omega (arith, k) in
          ap m' (
            ap (λ x. place m pde (to + x)) (sym k)
            ∙ sym (rest-place m m1 pde to from size count le r within j less))
          ∙ rest.bytes j less
          ∙ ap m1 from_at
          ∙ within (from + i) (r.source_apart i l)
    ]

to_loop-goes_on :
    (n pde to from size : ℕ) (m : Memory)
    → let count = to_copy to size in
      (size == 0) ≡ false
      → to + count < 2 ^ 32
      → from + count < 2 ^ 32
      → to_loop (suc n) pde to from size m
        ≡ to_loop n pde
            (to + count)
            (from + count)
            (size - count)
            (kmemcpy m (place m pde to) from count)
unfolding to_loop
to_loop-goes_on n pde to from size m z h k =
    let e : add32 to (to_copy to size) ≡ to + to_copy to size = omega (arith, h) in
    let f : add32 from (to_copy to size) ≡ from + to_copy to size = omega (arith, k) in
    rw (z, e, f) refl

to_loop-Copied :
    (n pde to from size : ℕ) (m m' : Memory)
    → size < 2 ^ 31
    → from ≢ 0
    → to + size < 2 ^ 32
    → from + size < 2 ^ 32
    → Writable m pde to from size
    → to_loop n pde to from size m ≡ some m'
    → Copied m m' pde to from size
unfolding to_loop
to_loop-Copied zero pde to from size m m' small ne fits fits' r e = absurd (ground arith)
to_loop-Copied (suc n) pde to from size m m' small ne fits fits' r e =
    elim (Bool-cases (size == 0)) [
      | inl z ↦ record { bytes = λ i l. absurd (ground arith); others = λ a out. ground arith }
      | inr z ↦
          let count = to_copy to size in
          let pos : 0 < size = ground arith in
          let less = to_copy-progress to size pos in
          let m1 = kmemcpy m (place m pde to) from count in
          let first = round-Copied m pde to from size pos small ne r in
          let within : (a : ℕ) → Elsewhere m pde to size a → m1 a ≡ m a =
            λ a out. first.others a (λ i l. out i (omega (arith, less, l))) in
          let next = rest-Writable m m1 pde to from size count less.1 r within in
          let same =
            sym (to_loop-goes_on n pde to from size m z (omega (arith, less)) (omega (arith, less)))
            ∙ e in
          let rest =
            to_loop-Copied n pde (to + count) (from + count) (size - count) m1 m'
              (omega (arith, small)) (ground (arith, ne)) (omega (arith, less))
              (omega (arith, less)) next same in
          join-Copied m m1 m' pde to from size count less.1 r first rest
    ]

-- With fuel for every byte, `copy_to_user` to a part of the user's memory that has pages ends and
-- reports success, if the places of its bytes differ and lie apart from the bytes to copy and from the
-- tables on the way to them. The task finds the bytes there, and no other byte has changed.
pub copy_to_user-Copied :
    (fuel pde to from size : ℕ) (m : Memory)
    → size < fuel
    → size < 2 ^ 31
    → from ≢ 0
    → from + size < 2 ^ 32
    → 2 ^ 30 ≤ to
    → to + size < 2 ^ 32
    → Writable m pde to from size
    → (m' : Memory) × (copy_to_user_n fuel pde to from size m ≡ some (true, m'))
      × Copied m m' pde to from size
unfolding copy_to_user_n
copy_to_user-Copied fuel pde to from size m h small ne fits low high r =
    let (m', e) = to_loop-ends fuel pde to from size m h in
    let accepted : ltb to 0x40000000 ≡ false = ground arith in
    (m', rw (accepted, e) refl, to_loop-Copied fuel pde to from size m m' small ne high fits r e)
