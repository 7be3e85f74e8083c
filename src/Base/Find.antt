-- ===== src/Base/Find.antt =====
-- A loop over an array that stops at the first entry that passes a test.
use Prim.Native.Nat.{ℕ, zero, suc, ◌+◌, ◌<◌}
use mathlib.Core.Path.{◌≡◌, refl}
use mathlib.Core.Logic.{inl, inr}
use mathlib.Core.Bool.{Bool, true, false}
use mathlib.Core.List.{List, [], ◌∷◌}
use mathlib.Core.Option.{Option, none, some}
use native.Mathlib.Omega.{arith}
use mango_os.Base.Tests.{if◌then◌else◌, Bool-cases}
use mango_os.Base.Lists.{length, get_elem?}

module _ {ℓ} {A : Type ℓ} (test : A → Bool) where
  -- The index of the first entry that passes, counted from `i`.
  abbrev pub find_from : List A → ℕ → Option ℕ
  find_from [] i = none
  find_from (x ∷ xs) i = if test x then some i else find_from xs (i + 1)

  abbrev pub find_index : List A → Option ℕ
  find_index xs = find_from xs 0

  -- What an entry at an index says of the test.
  abbrev pub passes : Option A → Bool
  passes none = false
  passes (some x) = test x

  pub find_from-some :
      (xs : List A) (i k : ℕ)
      → find_from xs i ≡ some k
      → (j : ℕ) × (k ≡ i + j)
        × (j < length xs)
        × (passes (get_elem? xs j) ≡ true)
        × ((n : ℕ) → n < j → passes (get_elem? xs n) ≡ false)
  find_from-some [] i k e = cc
  find_from-some (x ∷ xs) i k e = elim (Bool-cases (test x)) [
    | inl h ↦ (0, ground arith, ground arith, h, λ n l. elim l [ ])
    | inr h ↦
        let e' : find_from xs (i + 1) ≡ some k = ground arith in
        let (j, a, b, c, d) = find_from-some xs (i + 1) k e' in
        (suc j, omega arith, omega arith, c, earlier h d)
  ]
    where
      earlier :
          {j : ℕ}
          → test x ≡ false
          → ((n : ℕ) → n < j → passes (get_elem? xs n) ≡ false)
          → (n : ℕ) → n < suc j
          → passes (get_elem? (x ∷ xs) n) ≡ false
      earlier h d zero l = h
      earlier h d (suc n) l = d n (ground arith)

  -- The entry found passes, it lies in the array, and no earlier one passes.
  pub find_index-some :
      (xs : List A) (k : ℕ)
      → find_index xs ≡ some k
      → (k < length xs)
        × (passes (get_elem? xs k) ≡ true)
        × ((n : ℕ) → n < k → passes (get_elem? xs n) ≡ false)
  find_index-some xs k e =
      let (j, a, b, c, d) = find_from-some xs 0 k e in
      let same : j ≡ k = omega arith in (omega arith, rw same at c, λ n l. d n (omega arith))

  pub find_from-none :
      (xs : List A) (i : ℕ) → find_from xs i ≡ none → (n : ℕ) → passes (get_elem? xs n) ≡ false
  find_from-none [] i e n = refl
  find_from-none (x ∷ xs) i e zero = ground arith
  find_from-none (x ∷ xs) i e (suc n) = find_from-none xs (i + 1) (ground arith) n
