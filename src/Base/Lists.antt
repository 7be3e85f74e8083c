-- ===== src/Base/Lists.antt =====
-- Lists measured and indexed by native numbers, and Boolean membership.
use Prim.Native.Nat.{ℕ, zero, suc, ◌+◌, ◌<◌}
use mathlib.Core.Path.{◌≡◌, refl, ap}
use mathlib.Core.Logic.{◌≢◌}
use mathlib.Core.Bool.{Bool, true, false, ◌||◌, or_assoc}
use mathlib.Core.List.{List, [], ◌∷◌, ◌++◌}
use mathlib.Core.Option.{Option, none, some}
use native.Mathlib.Omega.{arith}
use mango_os.Base.Tests.{◌==◌, if◌then◌else◌}

module _ {ℓ} {A : Type ℓ} where
  abbrev pub length : List A → ℕ
  length [] = 0
  length (x ∷ xs) = suc (length xs)

  abbrev pub get_elem? : List A → ℕ → Option A
  get_elem? [] i = none
  get_elem? (x ∷ xs) zero = some x
  get_elem? (x ∷ xs) (suc i) = get_elem? xs i

  -- A write out of range changes nothing.
  abbrev pub set : List A → ℕ → A → List A
  set [] i v = []
  set (x ∷ xs) zero v = v ∷ xs
  set (x ∷ xs) (suc i) v = x ∷ set xs i v

  abbrev pub get_or : List A → ℕ → A → A
  get_or [] i d = d
  get_or (x ∷ xs) zero d = x
  get_or (x ∷ xs) (suc i) d = get_or xs i d

  abbrev pub replicate : ℕ → A → List A
  replicate zero a = []
  replicate (suc n) a = a ∷ replicate n a

  pub length-append : (xs ys : List A) → length (xs ++ ys) ≡ length xs + length ys
  length-append [] ys = omega arith
  length-append (x ∷ xs) ys = omega (arith, length-append xs ys)

  pub length-set : (xs : List A) (i : ℕ) (v : A) → length (set xs i v) ≡ length xs
  length-set [] i v = refl
  length-set (x ∷ xs) zero v = refl
  length-set (x ∷ xs) (suc i) v = ap suc (length-set xs i v)

  pub get_elem?-set_self :
      (xs : List A) (i : ℕ) (v : A) → i < length xs → get_elem? (set xs i v) i ≡ some v
  get_elem?-set_self [] i v h = elim h [ ]
  get_elem?-set_self (x ∷ xs) zero v h = refl
  get_elem?-set_self (x ∷ xs) (suc i) v h = get_elem?-set_self xs i v (omega arith)

  pub get_elem?-set_ne :
      (xs : List A) (i j : ℕ) (v : A) → i ≢ j → get_elem? (set xs i v) j ≡ get_elem? xs j
  get_elem?-set_ne [] i j v h = refl
  get_elem?-set_ne (x ∷ xs) zero zero v h = absurd (h refl)
  get_elem?-set_ne (x ∷ xs) zero (suc j) v h = refl
  get_elem?-set_ne (x ∷ xs) (suc i) zero v h = refl
  get_elem?-set_ne (x ∷ xs) (suc i) (suc j) v h = get_elem?-set_ne xs i j v (λ e. h (ap suc e))

abbrev pub mem : ℕ → List ℕ → Bool
mem a [] = false
mem a (x ∷ xs) = (a == x) || mem a xs

-- The list without its first occurrence of a value.
abbrev pub erase : ℕ → List ℕ → List ℕ
erase a [] = []
erase a (x ∷ xs) = if a == x then xs else x ∷ erase a xs

abbrev pub Distinct : List ℕ → Type 0
Distinct [] = Unit
Distinct (x ∷ xs) = (mem x xs ≡ false) × Distinct xs

pub mem-append : (a : ℕ) (xs ys : List ℕ) → mem a (xs ++ ys) ≡ (mem a xs || mem a ys)
mem-append a [] ys = refl
mem-append a (x ∷ xs) ys = rw (mem-append a xs ys, or_assoc)

pub mem-erase : (a q : ℕ) (xs : List ℕ) → mem a xs ≡ false → mem a (erase q xs) ≡ false
mem-erase a q [] h = refl
mem-erase a q (x ∷ xs) h = ground (arith, mem-erase a q xs)

pub mem-erase_ne : (a q : ℕ) (xs : List ℕ) → (a == q) ≡ false → mem a (erase q xs) ≡ mem a xs
mem-erase_ne a q [] h = refl
mem-erase_ne a q (x ∷ xs) h = ground (arith, mem-erase_ne a q xs)

pub mem-erase_self : (q : ℕ) (xs : List ℕ) → Distinct xs → mem q (erase q xs) ≡ false
mem-erase_self q [] d = refl
mem-erase_self q (x ∷ xs) d = ground (arith, mem-erase_self q xs d.1)

pub erase-Distinct : (q : ℕ) (xs : List ℕ) → Distinct xs → Distinct (erase q xs)
erase-Distinct q [] d = tt
erase-Distinct q (x ∷ xs) d = elim (q == x) as (λ b. Distinct (if b then xs else x ∷ erase q xs)) [
  | true ↦ d.1
  | false ↦ (mem-erase x q xs d.0, erase-Distinct q xs d.1)
]

pub snoc-Distinct : (q : ℕ) (xs : List ℕ) → Distinct xs → mem q xs ≡ false → Distinct (xs ++ q ∷ [])
snoc-Distinct q [] d h = (refl, tt)
snoc-Distinct q (x ∷ xs) d h =
    (ground (arith, mem-append x xs (q ∷ [])), snoc-Distinct q xs d.1 (ground arith))

pub length-erase : (q : ℕ) (xs : List ℕ) → mem q xs ≡ true → length xs ≡ suc (length (erase q xs))
length-erase q [] h = cc
length-erase q (x ∷ xs) h = ground (arith, length-erase q xs)

pub mem_ne : (a q : ℕ) (xs : List ℕ) → mem a xs ≡ true → mem q xs ≡ false → (a == q) ≡ false
mem_ne a q [] h k = cc
mem_ne a q (x ∷ xs) h k = ground (arith, mem_ne a q xs)

pub erase_head : (a : ℕ) (xs : List ℕ) → erase a (a ∷ xs) ≡ xs
erase_head a xs = ground arith
