-- ===== src/Strings/Text.antt =====
-- The functions on zero-terminated texts.
use mango_os.Base.{
  ℕ, zero, suc, ◌+◌, ◌%◌, ◌<◌, ◌^◌, ◌≡◌, ◌≢◌, ◌⊎◌, inl, inr, refl, ap, ◌∙◌, false, ◌||◌, ◌==◌,
  if◌then◌else◌, update, arith, Bool-cases, Option, some, List, [], ◌∷◌, length, mem, get_elem?,
}
use mango_os.Strings.{Memory, copy_text, kstrcpy, count_text, kstrlen, last_of, kstrrchr}

-- From address `p` on the memory holds the bytes `cs`, none of them 0, and then a 0.
abbrev pub IsText : Memory → ℕ → List ℕ → Type 0
IsText m p [] = m p ≡ 0
IsText m p (c ∷ cs) = (m p ≡ c) × (c ≢ 0) × IsText m (p + 1) cs

count_text_lem :
    (n p len : ℕ) (m : Memory) (cs : List ℕ)
    → IsText m p cs
    → length cs < n
    → count_text n p len m ≡ some (len + length cs)
unfolding count_text
count_text_lem zero p len m cs t f = absurd (omega arith)
count_text_lem (suc n) p len m [] t f = ground arith
count_text_lem (suc n) p len m (c ∷ cs) t f =
    ground (arith, count_text_lem n (p + 1) (len + 1) m cs t.2)

-- `kstrlen` is the number of bytes before the terminator.
pub kstrlen_lem :
    (fuel : ℕ) (m : Memory) (p : ℕ) (cs : List ℕ)
    → IsText m p cs
    → length cs < fuel
    → kstrlen fuel m p ≡ some (length cs)
unfolding kstrlen
kstrlen_lem fuel m p cs t f = count_text_lem fuel p 0 m cs t f ∙ ap some (omega arith)

-- A write outside a text leaves it alone.
IsText-update :
    (m : Memory) (p a v : ℕ) (cs : List ℕ)
    → (a < p) ⊎ (p + length cs < a)
    → IsText m p cs
    → IsText (update m a v) p cs
IsText-update m p a v [] out t = ground arith
IsText-update m p a v (c ∷ cs) out t =
    (ground arith, t.1, IsText-update m (p + 1) a v cs (ground arith) t.2)

-- What `kstrcpy` promises for the text `cs`.
pub record Copied (m : Memory) (dest : ℕ) (cs : List ℕ) (o : Option Memory) : Type 0 where
  pub result : Memory
  pub returns : o ≡ some result
  pub text : IsText result dest cs
  pub others : (a : ℕ) → (a < dest) ⊎ (dest + length cs < a) → result a ≡ m a

copy_text-Copied :
    (n d s : ℕ) (m : Memory) (cs : List ℕ)
    → IsText m s cs
    → (d < s) ⊎ (s + length cs < d)
    → length cs < n
    → Copied m d cs (copy_text n d s m)
unfolding copy_text
copy_text-Copied zero d s m cs t apart f = absurd (omega arith)
copy_text-Copied (suc n) d s m [] t apart f = record {
  result = update m d 0;
  returns = ground arith;
  text = ground arith;
  others = λ a h. ground arith;
}
copy_text-Copied (suc n) d s m (c ∷ cs) t apart f =
    let e : (m s == 0) ≡ false = ground arith in
    let m' = update m d (m s) in
    let r =
      copy_text-Copied n (d + 1) (s + 1) m' cs
        (IsText-update m (s + 1) d (m s) cs (omega arith) t.2) (omega arith) (omega arith) in
    rw e (record {
      result = r.result;
      returns = r.returns;
      text = (ground (arith, r.others d), t.1, r.text);
      others = λ a h. ground (arith, r.others a);
    })

-- `kstrcpy` copies a text with its terminator and changes nothing else, if the copy begins below the
-- text or behind its terminator.
pub kstrcpy-Copied :
    (fuel : ℕ) (m : Memory) (dest src : ℕ) (cs : List ℕ)
    → IsText m src cs
    → dest ≢ 0
    → src ≢ 0
    → (dest < src) ⊎ (src + length cs < dest)
    → length cs < fuel
    → Copied m dest cs (kstrcpy fuel m dest src)
unfolding kstrcpy
kstrcpy-Copied fuel m dest src cs t h k apart f =
    let e : ((dest == 0) || (src == 0)) ≡ false = ground arith in
    rw e (copy_text-Copied fuel dest src m cs t apart f)

last_from : ℕ → List ℕ → ℕ → ℕ → ℕ
last_from c [] p last = last
last_from c (x ∷ xs) p last = last_from c xs (p + 1) (if x == c % 2 ^ 8 then p else last)

last_of_lem :
    (n p c last : ℕ) (m : Memory) (cs : List ℕ)
    → IsText m p cs
    → length cs < n
    → c ≢ 0
    → last_of n p c last m ≡ some (last_from c cs p last)
unfolding last_of last_from
last_of_lem zero p c last m cs t f h = absurd (omega arith)
last_of_lem (suc n) p c last m [] t f h = ground arith
last_of_lem (suc n) p c last m (x ∷ xs) t f h = ground (
  arith,
  ap (λ y. last_of n (p + 1) c (if y == c % 2 ^ 8 then p else last) m) t.0,
  last_of_lem n (p + 1) c (if x == c % 2 ^ 8 then p else last) m xs t.2,
)

-- `r` is the address of the last `c` of the text `cs` at `p`, or `NULL` if there is none.
abbrev pub LastAt : ℕ → List ℕ → ℕ → ℕ → Type 0
LastAt c cs p r =
    ((mem c cs ≡ false) × (r ≡ 0))
    ⊎ ((j : ℕ) × (r ≡ p + j)
        × (get_elem? cs j ≡ some c)
        × ((i : ℕ) → j < i → get_elem? cs i ≢ some c))

not_mem_at : (c : ℕ) (cs : List ℕ) → mem c cs ≡ false → (i : ℕ) → get_elem? cs i ≢ some c
not_mem_at c [] h i e = cc
not_mem_at c (x ∷ xs) h zero e = ground arith
not_mem_at c (x ∷ xs) h (suc i) e = not_mem_at c xs (ground arith) i e

last_from-LastAt :
    (c : ℕ) (cs : List ℕ) (p last : ℕ)
    → ((mem (c % 2 ^ 8) cs ≡ false) × (last_from c cs p last ≡ last))
      ⊎ ((j : ℕ) × (last_from c cs p last ≡ p + j)
          × (get_elem? cs j ≡ some (c % 2 ^ 8))
          × ((i : ℕ) → j < i → get_elem? cs i ≢ some (c % 2 ^ 8)))
unfolding last_from
last_from-LastAt c [] p last = inl (refl, refl)
last_from-LastAt c (x ∷ xs) p last =
    elim (last_from-LastAt c xs (p + 1) (if x == c % 2 ^ 8 then p else last)) [
      | inr (j, a, b, d) ↦ inr (suc j, omega arith, b, later j d)
      | inl (a, b) ↦ elim (Bool-cases (x == c % 2 ^ 8)) [
        | inl e ↦ inr (0, ground arith, ground arith, none_later a)
        | inr e ↦ inl (ground arith, ground arith)
      ]
    ]
  where
    later :
        (j : ℕ)
        → ((i : ℕ) → j < i → get_elem? xs i ≢ some (c % 2 ^ 8))
        → (i : ℕ) → suc j < i
        → get_elem? (x ∷ xs) i ≢ some (c % 2 ^ 8)
    later j d zero l = absurd (omega arith)
    later j d (suc i) l = d i (omega arith)

    none_later :
        mem (c % 2 ^ 8) xs ≡ false → (i : ℕ) → 0 < i → get_elem? (x ∷ xs) i ≢ some (c % 2 ^ 8)
    none_later a zero l = absurd (omega arith)
    none_later a (suc i) l = not_mem_at (c % 2 ^ 8) xs a i

-- `kstrrchr` finds the last occurrence of a character other than the terminator.
pub kstrrchr-LastAt :
    (fuel : ℕ) (m : Memory) (p c : ℕ) (cs : List ℕ)
    → IsText m p cs
    → length cs < fuel
    → c ≢ 0
    → (r : ℕ) × (kstrrchr fuel m p c ≡ some r) × LastAt (c % 2 ^ 8) cs p r
unfolding kstrrchr
kstrrchr-LastAt fuel m p c cs t f h =
    (last_from c cs p 0, last_of_lem fuel p c 0 m cs t f h, last_from-LastAt c cs p 0)
