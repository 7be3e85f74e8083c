-- ===== src/UserCopy/Reads.antt =====
-- What copy_from_user brings into the kernel.
pub mod Whole
use mango_os.Base.{
  ℕ, zero, suc, ◌+◌, ◌-◌, ◌^◌, ◌<◌, ◌≤◌, ◌≡◌, ◌≢◌, ◌⊎◌, inl, inr, refl, sym, ap, ◌∙◌, true, false,
  ◌||◌, ◌&&◌, some, ◌==◌, ltb, leb, if◌then◌else◌, add32, arith, Bool-cases,
}
use mathlib.Core.Path.{subst}
use mango_os.Page.{trans_vtop}
use mango_os.Strings.{word, Memory, kmemcpy}
use mango_os.Strings.Copy.{kmemcpy_lem}
use mango_os.UserCopy.{to_copy, from_loop, copy_from_user_n}
use mango_os.UserCopy.Rounds.{to_copy-progress, from_loop-ends}
use mango_os.UserCopy.Places.{pde_at, pte_at, trans_vtop-same, trans_vtop-page}

-- The `n` bytes at `a` lie apart from the `size` bytes at `to`.
abbrev pub Outside : ℕ → ℕ → ℕ → ℕ → Type 0
Outside to size a n = (a + n ≤ to) ⊎ (to + size ≤ a)

-- The user's byte has a table and a place in memory, and the area written lies apart from it and from
-- both entries.
pub record Readable (m : Memory) (pde to size vaddr : ℕ) : Type 0 where
  pub table : word m (pde_at pde vaddr) ≢ 0
  pub place : trans_vtop pde vaddr (word m) ≢ 0
  pub directory_apart : Outside to size (pde_at pde vaddr) 4
  pub table_apart : Outside to size (pte_at pde vaddr m) 4
  pub byte_apart : Outside to size (trans_vtop pde vaddr (word m)) 1

abbrev pub Elsewhere : ℕ → ℕ → Memory → Memory → Type 0
Elsewhere to size m m' = (a : ℕ) → Outside to size a 1 → m' a ≡ m a

word-Elsewhere :
    (to size : ℕ) (m m' : Memory) (a : ℕ)
    → Elsewhere to size m m'
    → Outside to size a 4
    → word m' a ≡ word m a
word-Elsewhere to size m m' a e out =
    rw
      (
        e a (omega (arith, out)),
        e (a + 1) (omega (arith, out)),
        e (a + 2) (omega (arith, out)),
        e (a + 3) (omega (arith, out)),
      )
      refl

-- A write elsewhere does not change where the byte is.
pub trans_vtop-Elsewhere :
    (m m' : Memory) (pde to size vaddr : ℕ)
    → Elsewhere to size m m'
    → Readable m pde to size vaddr
    → trans_vtop pde vaddr (word m') ≡ trans_vtop pde vaddr (word m)
trans_vtop-Elsewhere m m' pde to size vaddr e r =
    trans_vtop-same m m' pde vaddr
      (word-Elsewhere to size m m' (pde_at pde vaddr) e r.directory_apart)
      (word-Elsewhere to size m m' (pte_at pde vaddr m) e r.table_apart)

-- The bytes from `to` on are the user's from `from` on, and no other has changed.
pub record Copied (m m' : Memory) (pde to from size : ℕ) : Type 0 where
  pub bytes : (i : ℕ) → i < size → m' (to + i) ≡ m (trans_vtop pde (from + i) (word m))
  pub others : Elsewhere to size m m'

-- One round of the loop.
module _ (m : Memory) (pde to from size : ℕ) (pos : 0 < size) (small : size < 2 ^ 31) (ne : to ≢ 0)
    (r : (i : ℕ) → i < size → Readable m pde to size (from + i)) where
  place :
      (i : ℕ)
      → i < to_copy from size
      → trans_vtop pde (from + i) (word m) ≡ trans_vtop pde from (word m) + i
  unfolding to_copy
  place i l =
      let t = (r 0 pos).table in
      trans_vtop-page (word m) pde from i
        (λ e. t (ap (λ x. word m (pde_at pde x)) (omega arith) ∙ e)) (ground arith)

  first_place : trans_vtop pde (from + 0) (word m) ≡ trans_vtop pde from (word m)
  first_place = ap (λ x. trans_vtop pde x (word m)) (omega arith)

  -- The area does not begin inside the bytes of the page.
  source_apart :
      (to ≤ trans_vtop pde from (word m)) ⊎ (trans_vtop pde from (word m) + to_copy from size ≤ to)
  source_apart =
      let count = to_copy from size in
      let p = trans_vtop pde from (word m) in
      let less = to_copy-progress from size pos in
      elim (Bool-cases (ltb p to && ltb to (p + count))) [
        | inl e ↦
            let i = to - p in
            let l : i < count = ground arith in
            let here = place i l in
            let out = (r i (omega (arith, l, less))).byte_apart in
            absurd (ground (arith, here, out))
        | inr e ↦ ground arith
      ]

  round_lem :
      (a : ℕ)
      → kmemcpy m to (trans_vtop pde from (word m)) (to_copy from size) a ≡ (
          if leb to a && ltb a (to + to_copy from size)
          then m (trans_vtop pde from (word m) + (a - to))
          else m a)
  round_lem a =
      let less = to_copy-progress from size pos in
      kmemcpy_lem m to (trans_vtop pde from (word m)) (to_copy from size) a ne
        (λ z. (r 0 pos).place (first_place ∙ z)) (omega (arith, less)) source_apart

  offset : (i : ℕ) → trans_vtop pde from (word m) + (to + i - to) ≡ trans_vtop pde from (word m) + i
  offset i = omega arith

  pub round-Copied :
      Copied m
        (kmemcpy m to (trans_vtop pde from (word m)) (to_copy from size))
        pde
        to
        from
        (to_copy from size)
  round-Copied = record {
    bytes = λ i l. ground (arith, l, round_lem (to + i), place i l, offset i);
    others = λ a out. round_lem a ∙ ground (arith, out);
  }

-- After a write to a part of the area the user's byte is where it was.
pub Readable-Elsewhere :
    (m m' : Memory) (pde to size count vaddr : ℕ)
    → count ≤ size
    → Elsewhere to size m m'
    → Readable m pde to size vaddr
    → Readable m' pde (to + count) (size - count) vaddr
Readable-Elsewhere m m' pde to size count vaddr c e r =
    let entry = word-Elsewhere to size m m' (pde_at pde vaddr) e r.directory_apart in
    let same = trans_vtop-Elsewhere m m' pde to size vaddr e r in
    record {
      table = λ z. r.table (sym entry ∙ z);
      place = λ z. r.place (sym same ∙ z);
      directory_apart = omega (arith, r.directory_apart);
      table_apart = rw entry (omega (arith, r.table_apart));
      byte_apart = rw same (omega (arith, r.byte_apart));
    }
