-- ===== src/Process/Switch/Stacks.antt =====
-- Words that have been pushed read back.
use mango_os.Base.{
  ℕ, ◌+◌, ◌-◌, ◌*◌, ◌^◌, ◌<◌, ◌≤◌, ◌≡◌, ◌⊎◌, ◌∙◌, inr, refl, List, [], ◌∷◌, length, sub32, arith,
  ap, sym,
}
use mathlib.Core.Path.{subst}
use mango_os.Strings.{Memory, word, store_word}
use mango_os.Process.Space.Mirror.{word-same, word-store_word, store_word_other}
use mango_os.Process.Start.{push_all}

-- The words of a list stand below an address, the first on top.
abbrev pub Stacked : Memory → ℕ → List ℕ → Type 0
Stacked m top [] = Unit {0}
Stacked m top (v ∷ vs) = (word m (top - 4) ≡ v) × Stacked m (top - 4) vs

abbrev pub AreWords : List ℕ → Type 0
AreWords [] = Unit {0}
AreWords (v ∷ vs) = (v < 2 ^ 32) × AreWords vs

-- Memory that has the same bytes from `lo` to `top`.
abbrev pub SameBetween : Memory → Memory → ℕ → ℕ → Type 0
SameBetween m m' lo top = (a : ℕ) → lo ≤ a → a < top → m' a ≡ m a

sub32_lem : (a b : ℕ) → b ≤ a → a < 2 ^ 32 → sub32 a b ≡ a - b
sub32_lem a b h l = omega arith

pub push_all_esp :
    (vs : List ℕ) (top : ℕ) (m : Memory)
    → 4 * length vs ≤ top
    → top < 2 ^ 32
    → (push_all vs top m).0 ≡ top - 4 * length vs
unfolding push_all
push_all_esp [] top m fits small = omega arith
push_all_esp (v ∷ vs) top m fits small =
    let e = sub32_lem top 4 (omega arith) small in
    push_all_esp vs (sub32 top 4) (store_word (sub32 top 4) v m) (omega arith) (omega arith)
    ∙ omega arith

pub push_all_other :
    (vs : List ℕ) (top : ℕ) (m : Memory) (a : ℕ)
    → 4 * length vs ≤ top
    → top < 2 ^ 32
    → (a < top - 4 * length vs) ⊎ (top ≤ a)
    → (push_all vs top m).1 a ≡ m a
unfolding push_all
push_all_other [] top m a fits small out = refl
push_all_other (v ∷ vs) top m a fits small out =
    let e = sub32_lem top 4 (omega arith) small in
    push_all_other vs (sub32 top 4) (store_word (sub32 top 4) v m) a (omega arith) (omega arith)
      (omega arith)
    ∙ store_word_other (sub32 top 4) v a m (omega arith)

pub Stacked-same :
    (vs : List ℕ) (top : ℕ) (m m' : Memory)
    → 4 * length vs ≤ top
    → SameBetween m m' (top - 4 * length vs) top
    → Stacked m top vs
    → Stacked m' top vs
Stacked-same [] top m m' fits same s = tt
Stacked-same (v ∷ vs) top m m' fits same s = (
  word-same m m' (top - 4) (λ k l. same (top - 4 + k) (omega arith) (omega arith)) ∙ s.0,
  Stacked-same vs (top - 4) m m' (omega arith) (λ a lo hi. same a (omega arith) (omega arith)) s.1,
)

pub push_all-Stacked :
    (vs : List ℕ) (top : ℕ) (m : Memory)
    → AreWords vs
    → 4 * length vs ≤ top
    → top < 2 ^ 32
    → Stacked (push_all vs top m).1 top vs
unfolding push_all
push_all-Stacked [] top m words fits small = tt
push_all-Stacked (v ∷ vs) top m words fits small =
    let e = sub32_lem top 4 (omega arith) small in
    let m1 = store_word (sub32 top 4) v m in
    let rest = push_all-Stacked vs (sub32 top 4) m1 words.1 (omega arith) (omega arith) in
    (
      ap (word (push_all vs (sub32 top 4) m1).1) (sym e)
          ∙ word-same m1 (push_all vs (sub32 top 4) m1).1 (sub32 top 4) (λ k l.
            push_all_other vs (sub32 top 4) m1 (sub32 top 4 + k) (omega arith) (omega arith)
              (inr (omega arith)))
          ∙ word-store_word (sub32 top 4) v m words.0,
      subst (λ t. Stacked (push_all vs (sub32 top 4) m1).1 t vs) e rest,
    )
