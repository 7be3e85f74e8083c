-- ===== src/Ext2/Names/Split.antt =====
-- What iget_name takes off a path, and how much of a path get_name_index looks at.
use mathlib.Core.Path.{subst}
use mango_os.Base.{
  ℕ, zero, suc, ◌+◌, ◌-◌, ◌/◌, ◌<◌, ◌≤◌, ◌≡◌, ◌≢◌, ◌⊎◌, inl, inr, refl, ap, false, some, ◌==◌, ltb,
  if◌then◌else◌, List, [], ◌∷◌, ◌++◌, length, length-append, replicate, arith,
}
use mango_os.Strings.{Memory, kstrlen}
use mango_os.Strings.Text.{IsText, kstrlen_lem}
use mango_os.Ext2.Names.{slash, skip_slashes, take_name, iget_name, index_loop, get_name_index}

abbrev pub HasNoSlash : List ℕ → Type 0
HasNoSlash [] = Unit {0}
HasNoSlash (c ∷ cs) = (c ≢ slash) × HasNoSlash cs

abbrev pub StartsWithoutSlash : List ℕ → Type 0
StartsWithoutSlash [] = Unit {0}
StartsWithoutSlash (c ∷ cs) = c ≢ slash

module _ (m : Memory) where
  IsText-drop : (xs ys : List ℕ) (p : ℕ) → IsText m p (xs ++ ys) → IsText m (p + length xs) ys
  IsText-drop [] ys p t = subst (λ a. IsText m a ys) (omega arith) t
  IsText-drop (x ∷ xs) ys p t =
      subst (λ a. IsText m a ys) (omega arith) (IsText-drop xs ys (p + 1) t.2)

  not_slash : (rest : List ℕ) (p : ℕ) → IsText m p rest → StartsWithoutSlash rest → m p ≢ slash
  not_slash [] p t s = ground arith
  not_slash (c ∷ cs) p t s = ground arith

  skip_slashes_lem :
      (k n : ℕ) (rest : List ℕ) (p : ℕ)
      → IsText m p (replicate k slash ++ rest)
      → StartsWithoutSlash rest
      → k < n
      → skip_slashes n m p ≡ some (p + k)
  unfolding skip_slashes
  skip_slashes_lem k zero rest p t s f = absurd (omega arith)
  skip_slashes_lem zero (suc n) rest p t s f = ground (arith, not_slash rest p t s)
  skip_slashes_lem (suc k) (suc n) rest p t s f =
      ground (arith, skip_slashes_lem k n rest (p + 1) t.2 s (omega arith))

  take_name_lem :
      (n : ℕ) (c rest : List ℕ) (p : ℕ)
      → IsText m p (c ++ rest)
      → HasNoSlash c
      → length c ≤ n
      → (length c ≡ n) ⊎ ((m (p + length c) ≡ slash) ⊎ (m (p + length c) ≡ 0))
      → take_name n m p ≡ (c, p + length c)
  unfolding take_name
  take_name_lem zero [] rest p t h l s = ap (λ a. ([], a)) (omega arith)
  take_name_lem zero (x ∷ c) rest p t h l s = absurd (omega arith)
  take_name_lem (suc n) [] rest p t h l s = ground arith
  take_name_lem (suc n) (x ∷ c) rest p t h l s =
      let at_later : m (p + 1 + length c) ≡ m (p + suc (length c)) = ap m (omega arith) in
      let stop : (length c ≡ n) ⊎ ((m (p + 1 + length c) ≡ slash) ⊎ (m (p + 1 + length c) ≡ 0)) =
        ground (arith, at_later) in
      ground (arith, take_name_lem n c rest (p + 1) t.2 h.1 (omega arith) stop)

length-replicate : (k : ℕ) → length (replicate k slash) ≡ k
length-replicate zero = refl
length-replicate (suc k) = ap suc (length-replicate k)

name_start : (name tail : List ℕ) → name ≢ [] → HasNoSlash name → StartsWithoutSlash (name ++ tail)
name_start [] tail nonempty h = absurd (nonempty refl)
name_start (c ∷ name) tail nonempty h = h.0

stops :
    (m : Memory) (b : ℕ) (rest : List ℕ) (p : ℕ)
    → IsText m p (replicate b slash ++ rest)
    → (Full : Type 0) → Full ⊎ ((0 < b) ⊎ (rest ≡ []))
    → Full ⊎ ((m p ≡ slash) ⊎ (m p ≡ 0))
stops m b rest p t Full (inl full) = inl full
stops m zero [] p t Full (inr h) = inr (inr t)
stops m zero (x ∷ rest) p t Full (inr (inl h)) = absurd (omega arith)
stops m zero (x ∷ rest) p t Full (inr (inr h)) = cc
stops m (suc b) rest p t Full (inr h) = inr (inl t.0)

length-positive : (cs : List ℕ) → cs ≢ [] → 0 < length cs
length-positive [] h = absurd (h refl)
length-positive (c ∷ cs) h = omega arith

slash_next :
    (m : Memory) (b : ℕ) (rest : List ℕ) (p : ℕ)
    → IsText m p (replicate b slash ++ rest)
    → StartsWithoutSlash rest
    → (m p == slash) ≡ ltb 0 b
slash_next m zero rest p t s = ground (arith, not_slash m rest p t s)
slash_next m (suc b) rest p t s = ground (arith, t.0)

-- `a` slashes, a name of characters other than slashes, `b` slashes, then what does not begin with a
-- slash. The name ends the path, or a slash follows it, or it has the greatest length.
pub iget_name_lem :
    (fuel : ℕ) (m : Memory) (p at_end a b : ℕ) (name rest : List ℕ)
    → IsText m p (replicate a slash ++ (name ++ (replicate b slash ++ rest)))
    → name ≢ []
    → HasNoSlash name
    → length name ≤ 63
    → StartsWithoutSlash rest
    → (length name ≡ 63) ⊎ ((0 < b) ⊎ (rest ≡ []))
    → length (replicate a slash ++ (name ++ (replicate b slash ++ rest))) < fuel
    → iget_name fuel m p at_end
      ≡ some (some (p + a + length name + b, name, if ltb 0 b then 0 else at_end))
unfolding iget_name
iget_name_lem fuel m p at_end a b name rest t nonempty h l s stop f =
    let tail = replicate b slash ++ rest in
    let whole = replicate a slash ++ (name ++ tail) in
    let here = p + a in
    let after = p + a + length name in
    let name_text : IsText m here (name ++ tail) =
      subst (λ k. IsText m (p + k) (name ++ tail)) (length-replicate a)
        (IsText-drop m (replicate a slash) (name ++ tail) p t) in
    let tail_text : IsText m after tail = IsText-drop m name tail here name_text in
    let e1 : kstrlen fuel m p ≡ some (length whole) = kstrlen_lem fuel m p whole t f in
    let size = length-append (replicate a slash) (name ++ tail) in
    let size_name = length-append name tail in
    let size_tail = length-append (replicate b slash) rest in
    let e2 : (length whole == 0) ≡ false =
      ground (arith, size, size_name, length-positive name nonempty) in
    let e3 : skip_slashes fuel m p ≡ some here =
      skip_slashes_lem m a fuel (name ++ tail) p t (name_start name tail nonempty h)
        (omega (arith, size, length-replicate a)) in
    let e4 : take_name 63 m here ≡ (name, after) =
      take_name_lem m 63 name tail here name_text h l
        (stops m b rest after tail_text (length name ≡ 63) stop) in
    let e5 : skip_slashes fuel m after ≡ some (after + b) =
      skip_slashes_lem m b fuel rest after tail_text s
        (omega (arith, size, size_name, size_tail, length-replicate b)) in
    let flag = slash_next m b rest after tail_text s in
    ground (arith, e1, e2, e3, e4, ap (λ r. r.0) e4, ap (λ r. r.1) e4, e5, flag)

-- Where the last slash of a list ends, `start` if there is none; `i` is the place of the list's head.
abbrev pub slash_end : ℕ → ℕ → List ℕ → ℕ
slash_end i start [] = start
slash_end i start (x ∷ xs) = slash_end (i + 1) (if x == slash then i + 1 else start) xs

abbrev pub take : ℕ → List ℕ → List ℕ
take zero xs = []
take (suc n) [] = []
take (suc n) (x ∷ xs) = x ∷ take n xs

index_loop_lem :
    (n : ℕ) (m : Memory) (p i start : ℕ) (cs : List ℕ) (rounds : ℕ)
    → IsText m p cs
    → length cs < n
    → rounds ≡ (length cs - i + 1) / 2
    → index_loop n m p i start ≡ some (slash_end i start (take rounds cs))
unfolding index_loop
index_loop_lem zero m p i start cs rounds t f r = absurd (omega arith)
index_loop_lem (suc n) m p i start [] (suc rounds) t f r = absurd (omega arith)
index_loop_lem (suc n) m p i start [] zero t f r = ground (arith, kstrlen_lem (suc n) m p [] t f)
index_loop_lem (suc n) m p i start (x ∷ cs) zero t f r =
    ground (arith, kstrlen_lem (suc n) m p (x ∷ cs) t f)
index_loop_lem (suc n) m p i start (x ∷ cs) (suc rounds) t f r =
    let start' = if m p == slash then i + 1 else start in
    ground (
      arith,
      kstrlen_lem (suc n) m p (x ∷ cs) t f,
      ap (λ y. slash_end (i + 1) (if y == slash then i + 1 else start) (take rounds cs)) t.0,
      index_loop_lem n m (p + 1) (i + 1) start' cs rounds t.2 (omega arith) (omega arith),
    )

-- Of a path, get_name_index sees the first half alone, the middle character included: its answer is
-- the end of the last slash there, 0 if there is none.
pub get_name_index_lem :
    (fuel : ℕ) (m : Memory) (p : ℕ) (cs : List ℕ)
    → IsText m p cs
    → length cs < fuel
    → get_name_index fuel m p ≡ some (slash_end 0 0 (take ((length cs + 1) / 2) cs))
unfolding get_name_index
get_name_index_lem fuel m p cs t f =
    index_loop_lem fuel m p 0 0 cs ((length cs + 1) / 2) t f (omega arith)
