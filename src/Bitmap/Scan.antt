-- ===== src/Bitmap/Scan.antt =====
-- The search of `bitmap_alloc_bits` is first fit: it finds the lowest run of free pages, and finds
-- one whenever there is one.
use mango_os.Base.{
  ℕ, zero, suc, ◌+◌, ◌-◌, ◌<◌, ◌≤◌, ◌≡◌, ap, true, false, Option, none, some, arith, ◌==◌, ltb, leb,
  Bool-cases, inl, inr, ==→eq,
}
use mango_os.Bitmap.{Bytes, scan, get_bit}
use mango_os.Bitmap.Bits.{used, get_bit-used}

-- The pages from `i` to `i + count - 1` are free.
abbrev pub Free : Bytes → ℕ → ℕ → Type 0
Free m i count = (p : ℕ) → i ≤ p → p < i + count → used m p ≡ false

-- The answer of first fit among the pages below `nbits`.
abbrev pub FirstFit : Bytes → ℕ → ℕ → Option ℕ → Type 0
FirstFit m nbits count none = (j : ℕ) → j + count ≤ nbits → ¬ Free m j count
FirstFit m nbits count (some i) =
    (i + count ≤ nbits) × Free m i count × ((j : ℕ) → j < i → ¬ Free m j count)

-- A free page extends a run.
Free-grow :
    (m : Bytes) (begin cur n : ℕ)
    → begin ≤ cur
    → n ≤ cur + 1 - begin
    → Free m begin (cur - begin)
    → (get_bit m cur == 0) ≡ true
    → Free m begin n
Free-grow m begin cur n b h run free p lo hi = elim (Bool-cases (p == cur)) [
  | inl e ↦ ground (arith, get_bit-used m cur, ap (used m) (==→eq p cur e))
  | inr e ↦ run p lo (ground arith)
]

module _ (m : Bytes) (count nbits : ℕ) (some_pages : 0 < count) where
  -- Before each round: the pages from `begin` to `cur` are free, they are too few, and no run
  -- starts below `begin`.
  rounds-FirstFit :
      (rounds cur begin : ℕ)
      → cur + rounds ≡ nbits
      → begin ≤ cur
      → cur < begin + count
      → Free m begin (cur - begin)
      → ((j : ℕ) → j < begin → ¬ Free m j count)
      → FirstFit m nbits count (scan m count rounds cur begin)
  unfolding scan
  rounds-FirstFit zero cur begin e b few run low = λ j fits free. elim (Bool-cases (ltb j begin)) [
    | inl h ↦ low j (ground arith) free
    | inr h ↦ absurd (ground arith)
  ]
  rounds-FirstFit (suc n) cur begin e b few run low = elim (Bool-cases (get_bit m cur == 0)) [
    | inr busy ↦ rw busy (
        rounds-FirstFit n (cur + 1) (cur + 1) (omega arith) (omega arith) (omega arith)
          (λ p lo hi. absurd (omega arith))
          (λ j h free. elim (Bool-cases (ltb j begin)) [
            | inl below ↦ low j (ground arith) free
            | inr above ↦
                absurd (ground (arith, get_bit-used m cur, free cur (ground arith) (ground arith)))
          ]))
    | inl free ↦ rw free (elim (Bool-cases (leb count (cur + 1 - begin))) [
      | inl enough ↦
          rw enough (ground arith, Free-grow m begin cur count b (ground arith) run free, low)
      | inr short ↦ rw short (
          rounds-FirstFit n (cur + 1) begin (omega arith) (omega arith) (ground arith)
            (Free-grow m begin cur (cur + 1 - begin) b (omega arith) run free) low)
    ])
  ]

-- The search over the whole bitmap.
pub scan-FirstFit :
    (m : Bytes) (count nbits : ℕ) → 0 < count → FirstFit m nbits count (scan m count nbits 0 0)
scan-FirstFit m count nbits h =
    rounds-FirstFit m count nbits h nbits 0 0 (omega arith) (omega arith) (omega arith)
      (λ p lo hi. absurd (omega arith)) (λ j below free. absurd (omega arith))
