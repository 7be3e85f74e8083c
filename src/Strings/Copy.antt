-- ===== src/Strings/Copy.antt =====
-- The functions on counted bytes.
use mango_os.Base.{
  ℕ, zero, suc, ◌+◌, ◌-◌, ◌<◌, ◌≤◌, ◌^◌, ◌≡◌, ◌≢◌, ◌⊎◌, ◌↔◌, refl, ap, ◌∙◌, false, ◌||◌, ◌&&◌, ◌==◌,
  ltb, leb, if◌then◌else◌, update, arith,
}
use mango_os.Strings.{Memory, fill, kmemset, copy, kmemcpy, compare_bytes, kmemcmp}

fill_lem :
    (n p c : ℕ) (m : Memory) (a : ℕ)
    → fill n p c m a ≡ (if leb p a && ltb a (p + n) then c else m a)
unfolding fill
fill_lem zero p c m a = ground arith
fill_lem (suc n) p c m a = ground (arith, fill_lem n (p + 1) c (update m p c) a)

-- `kmemset` writes the byte to each of `size` places and to no other.
pub kmemset_lem :
    (m : Memory) (dest c size a : ℕ)
    → dest ≢ 0
    → size < 2 ^ 31
    → kmemset m dest c size a ≡ (if leb dest a && ltb a (dest + size) then c else m a)
unfolding kmemset
kmemset_lem m dest c size a h small = ground (arith, fill_lem size dest c m a)

copy_lem :
    (n d s : ℕ) (m : Memory) (a : ℕ)
    → (d ≤ s) ⊎ (s + n ≤ d)
    → copy n d s m a ≡ (if leb d a && ltb a (d + n) then m (s + (a - d)) else m a)
unfolding copy
copy_lem zero d s m a h = ground arith
copy_lem (suc n) d s m a h = ground (arith, copy_lem n (d + 1) (s + 1) (update m d (m s)) a)

-- `kmemcpy` copies `size` bytes and changes no other, if the destination begins below the source or
-- behind its end.
pub kmemcpy_lem :
    (m : Memory) (dest src size a : ℕ)
    → dest ≢ 0
    → src ≢ 0
    → size < 2 ^ 31
    → (dest ≤ src) ⊎ (src + size ≤ dest)
    → kmemcpy m dest src size a
      ≡ (if leb dest a && ltb a (dest + size) then m (src + (a - dest)) else m a)
unfolding kmemcpy
kmemcpy_lem m dest src size a h k small apart = ground (arith, copy_lem size dest src m a)

compare_same :
    (n f s : ℕ) (m : Memory) → ((i : ℕ) → i < n → m (f + i) ≡ m (s + i)) → compare_bytes n f s m ≡ 0
unfolding compare_bytes
compare_same zero f s m h = refl
compare_same (suc n) f s m h =
    let here : m f ≡ m s = ap m (omega arith) ∙ h 0 (omega arith) ∙ ap m (omega arith) in
    ground (
      arith,
      here,
      compare_same n (f + 1) (s + 1) m
          (λ i l. ap m (omega arith) ∙ h (suc i) (omega arith) ∙ ap m (omega arith)),
    )

equal_heads : (m : Memory) (f s n : ℕ) → compare_bytes (suc n) f s m ≡ 0 → m f ≡ m s
unfolding compare_bytes
equal_heads m f s n e = ground arith

equal_tails :
    (m : Memory) (f s n : ℕ)
    → compare_bytes (suc n) f s m ≡ 0
    → compare_bytes n (f + 1) (s + 1) m ≡ 0
unfolding compare_bytes
equal_tails m f s n e = ground arith

compare_zero :
    (n f s : ℕ) (m : Memory) → compare_bytes n f s m ≡ 0 → (i : ℕ) → i < n → m (f + i) ≡ m (s + i)
unfolding compare_bytes
compare_zero zero f s m e i h = elim h [ ]
compare_zero (suc n) f s m e zero h =
    ap m (omega arith) ∙ equal_heads m f s n e ∙ ap m (omega arith)
compare_zero (suc n) f s m e (suc i) h =
    let rest : m (f + 1 + i) ≡ m (s + 1 + i) =
      compare_zero n (f + 1) (s + 1) m (equal_tails m f s n e) i (omega arith) in
    ap m (omega arith) ∙ rest ∙ ap m (omega arith)

-- `kmemcmp` is 0 exactly if the two areas hold the same bytes.
pub kmemcmp_iff :
    (m : Memory) (first second size : ℕ)
    → first ≢ 0
    → second ≢ 0
    → (kmemcmp m first second size ≡ 0) ↔ ((i : ℕ) → i < size → m (first + i) ≡ m (second + i))
unfolding kmemcmp
kmemcmp_iff m first second size h k =
    let e : ((first == 0) || (second == 0)) ≡ false = ground arith in
    rw e (compare_zero size first second m, compare_same size first second m)
