-- ===== src/UserCopy/Writes.antt =====
-- What copy_to_user writes into the task's pages.
pub mod Whole
use mango_os.Base.{
  ℕ, zero, suc, ◌+◌, ◌-◌, ◌*◌, ◌^◌, ◌<◌, ◌≤◌, ◌≡◌, ◌≢◌, ◌⊎◌, inl, inr, refl, sym, ap, ◌∙◌, true,
  false, ◌&&◌, some, ◌==◌, ltb, leb, if◌then◌else◌, add32, arith, Bool-cases,
}
use mathlib.Core.Path.{subst}
use mango_os.Page.{trans_vtop, pte_index, align_down}
use mango_os.Strings.{word, Memory, kmemcpy}
use mango_os.Strings.Copy.{kmemcpy_lem}
use mango_os.UserCopy.{to_copy, to_loop, copy_to_user_n}
use mango_os.UserCopy.Rounds.{to_copy-progress, to_loop-ends}
use mango_os.UserCopy.Places.{pde_at, pte_at, trans_vtop-same, trans_vtop-page}

abbrev pub place : Memory → ℕ → ℕ → ℕ
place m pde vaddr = trans_vtop pde vaddr (word m)

-- The address is not among the places of the task's bytes.
abbrev pub Elsewhere : Memory → ℕ → ℕ → ℕ → ℕ → Type 0
Elsewhere m pde to size a = (i : ℕ) → i < size → a ≢ place m pde (to + i)

abbrev pub WordElsewhere : Memory → ℕ → ℕ → ℕ → ℕ → Type 0
WordElsewhere m pde to size a = (k : ℕ) → k < 4 → Elsewhere m pde to size (a + k)

-- Each of the task's bytes has a table and a place in memory of its own, which is neither one of the
-- bytes to copy nor a part of the entries that lead to one.
pub record Writable (m : Memory) (pde to from size : ℕ) : Type 0 where
  pub table : (i : ℕ) → i < size → word m (pde_at pde (to + i)) ≢ 0
  pub placed : (i : ℕ) → i < size → place m pde (to + i) ≢ 0
  pub directory_apart : (i : ℕ) → i < size → WordElsewhere m pde to size (pde_at pde (to + i))
  pub table_apart : (i : ℕ) → i < size → WordElsewhere m pde to size (pte_at pde (to + i) m)
  pub source_apart : (i : ℕ) → i < size → Elsewhere m pde to size (from + i)
  pub distinct :
      (i j : ℕ) → i < size → j < size → place m pde (to + i) ≡ place m pde (to + j) → i ≡ j

-- The task's bytes from `to` on are those from `from` on, and no other byte of memory has changed.
pub record Copied (m m' : Memory) (pde to from size : ℕ) : Type 0 where
  pub bytes : (i : ℕ) → i < size → m' (place m pde (to + i)) ≡ m (from + i)
  pub others : (a : ℕ) → Elsewhere m pde to size a → m' a ≡ m a

-- One round of the loop.
module _ (m : Memory) (pde to from size : ℕ) (pos : 0 < size) (small : size < 2 ^ 31)
    (ne : from ≢ 0) (r : Writable m pde to from size) where
  place_of : (i : ℕ) → i < to_copy to size → place m pde (to + i) ≡ place m pde to + i
  unfolding to_copy
  place_of i l =
      trans_vtop-page (word m) pde to i
        (λ e. r.table 0 pos (ap (λ x. word m (pde_at pde x)) (omega arith) ∙ e)) (ground arith)

  first_place : place m pde (to + 0) ≡ place m pde to
  first_place = ap (place m pde) (omega arith)

  -- The page's bytes do not begin inside those to copy.
  page_apart : (place m pde to ≤ from) ⊎ (from + to_copy to size ≤ place m pde to)
  page_apart =
      let count = to_copy to size in
      let p = place m pde to in
      let less = to_copy-progress to size pos in
      elim (Bool-cases (ltb from p && ltb p (from + count))) [
        | inl e ↦
            let k : from + (p - from) ≡ p = ground arith in
            absurd (r.source_apart (p - from) (ground (arith, less)) 0 pos (k ∙ sym first_place))
        | inr e ↦ ground arith
      ]

  round_lem :
      (a : ℕ)
      → kmemcpy m (place m pde to) from (to_copy to size) a ≡ (
          if leb (place m pde to) a && ltb a (place m pde to + to_copy to size)
          then m (from + (a - place m pde to))
          else m a)
  round_lem a =
      let less = to_copy-progress to size pos in
      kmemcpy_lem m (place m pde to) from (to_copy to size) a
        (λ z. r.placed 0 pos (first_place ∙ z)) ne (omega (arith, less, small)) page_apart

  pub round-Copied :
      Copied m (kmemcpy m (place m pde to) from (to_copy to size)) pde to from (to_copy to size)
  round-Copied = record {
    bytes = λ i l. ground (arith, l, round_lem (place m pde (to + i)), place_of i l, offset i);
    others = λ a out.
        elim (Bool-cases (leb (place m pde to) a && ltb a (place m pde to + to_copy to size))) [
          | inl e ↦
              let i = a - place m pde to in
              let l : i < to_copy to size = ground arith in
              let k : place m pde to + i ≡ a = ground arith in
              absurd (out i l (sym (place_of i l ∙ k)))
          | inr e ↦ ground (arith, round_lem a)
        ];
  }
    where
      offset : (i : ℕ) → from + (place m pde to + i - place m pde to) ≡ from + i
      offset i = omega arith

word-same :
    (m m' : Memory) (a : ℕ) → ((k : ℕ) → k < 4 → m' (a + k) ≡ m (a + k)) → word m' a ≡ word m a
word-same m m' a h =
    let zeroth : m' a ≡ m a = ap m' (omega arith) ∙ h 0 (omega arith) ∙ ap m (omega arith) in
    rw (zeroth, h 1 (omega arith), h 2 (omega arith), h 3 (omega arith)) refl

-- After a write to some of the task's bytes the others are where they were.
module _ (m m' : Memory) (pde to from size count : ℕ) (le : count ≤ size)
    (r : Writable m pde to from size)
    (same : (a : ℕ) → Elsewhere m pde to size a → m' a ≡ m a) where
  behind : (i : ℕ) → to + (count + i) ≡ to + count + i
  behind i = omega arith

  entry-same : (i : ℕ) → i < size → word m' (pde_at pde (to + i)) ≡ word m (pde_at pde (to + i))
  entry-same i l =
      word-same m m' (pde_at pde (to + i))
        (λ k l4. same (pde_at pde (to + i) + k) (r.directory_apart i l k l4))

  place-same : (i : ℕ) → i < size → place m' pde (to + i) ≡ place m pde (to + i)
  place-same i l = trans_vtop-same m m' pde (to + i) (entry-same i l) (
      word-same m m' (pte_at pde (to + i) m)
        (λ k l4. same (pte_at pde (to + i) m + k) (r.table_apart i l k l4)))

  pub rest-place :
      (i : ℕ) → i < size - count → place m' pde (to + count + i) ≡ place m pde (to + (count + i))
  rest-place i l =
      ap (place m' pde) (sym (behind i)) ∙ place-same (count + i) (omega (arith, le, l))

  pub rest-Elsewhere :
      (a : ℕ) → Elsewhere m pde to size a → Elsewhere m' pde (to + count) (size - count) a
  rest-Elsewhere a out i l e = out (count + i) (omega (arith, le, l)) (e ∙ rest-place i l)

  pub rest-Writable : Writable m' pde (to + count) (from + count) (size - count)
  rest-Writable = record {
    table = λ i l z. r.table (count + i) (omega (arith, le, l)) (
        sym (entry-same (count + i) (omega (arith, le, l)))
        ∙ ap (λ v. word m' (pde_at pde v)) (behind i)
        ∙ z);
    placed = λ i l z. r.placed (count + i) (omega (arith, le, l)) (sym (rest-place i l) ∙ z);
    directory_apart = λ i l k l4. rest-Elsewhere (pde_at pde (to + count + i) + k) (
        subst (λ v. Elsewhere m pde to size (pde_at pde v + k)) (behind i)
          (r.directory_apart (count + i) (omega (arith, le, l)) k l4));
    table_apart = λ i l k l4. rest-Elsewhere (pte_at pde (to + count + i) m' + k) (
        subst (λ v. Elsewhere m pde to size (pte_at pde v m' + k)) (behind i)
          (subst
            (λ w. Elsewhere m pde to size (align_down w + pte_index (to + (count + i)) * 4 + k))
            (sym (entry-same (count + i) (omega (arith, le, l))))
            (r.table_apart (count + i) (omega (arith, le, l)) k l4)));
    source_apart = λ i l. rest-Elsewhere (from + count + i) (
        subst (Elsewhere m pde to size) (omega arith)
          (r.source_apart (count + i) (omega (arith, le, l))));
    distinct = λ i j l l' e.
        let k : count + i ≡ count + j =
          r.distinct (count + i) (count + j) (omega (arith, le, l)) (omega (arith, le, l'))
            (sym (rest-place i l) ∙ e ∙ rest-place j l') in
        omega (arith, k);
  }
