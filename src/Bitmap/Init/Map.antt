-- ===== src/Bitmap/Init/Map.antt =====
-- The whole of `bitmap_init` against the memory map.
use mango_os.Base.{
  ℕ, ◌+◌, ◌*◌, ◌/◌, ◌^◌, ◌<◌, ◌≤◌, ◌≡◌, Bool, true, false, not, ◌&&◌, ◌||◌, arith, ◌==◌, ltb, leb,
  if◌then◌else◌, Bool-cases, inl, inr, List, [], ◌∷◌, add32,
}
use mathlib.Core.Path.{subst}
use mango_os.Bitmap.{
  Bytes, MemLayout, free_mem_start, first_page, end_page, mark_entry, init_loop, bitmap_init,
  set_bytes,
}
use mango_os.Bitmap.Bits.{IsBytes, used, used-set_bytes, set_bytes-IsBytes}
use mango_os.Bitmap.Init.{used-free_region, free_region-IsBytes}

-- The entries that the loop reaches.
unfoldable pub entries : MemLayout → List MemLayout → List MemLayout
entries l [] = l ∷ []
entries l (l' ∷ ls) = if l'.start == 0 then l ∷ [] else l ∷ entries l' ls

-- Page `p`, from byte `p * 4096` on, lies wholly in the usable entry and above the kernel's memory.
abbrev pub covers : ℕ → MemLayout → Bool
covers p l =
    (l.type == 1)
    && (leb 0x601000 (p * 4096)
        && (leb l.start (p * 4096) && leb ((p + 1) * 4096) (l.start + l.size)))

abbrev pub covered : ℕ → List MemLayout → Bool
covered p [] = false
covered p (l ∷ ls) = covers p l || covered p ls

-- A usable entry that reaches above the kernel's memory has, behind its beginning and that of the
-- free memory, an address that is a multiple of eight pages. The numbers of its pages are 32-bit.
abbrev pub IsWide : MemLayout → Type 0
IsWide l =
    l.type ≡ 1
    → 0x601000 < l.start + l.size
    → (l.start + l.size < 2 ^ 43)
      × (b : ℕ) × (l.start ≤ b * 32768)
      × (0x601000 ≤ b * 32768)
      × (b * 32768 ≤ l.start + l.size)

abbrev pub AllWide : List MemLayout → Type 0
AllWide [] = Unit
AllWide (l ∷ ls) = IsWide l × AllWide ls

mark_entry-IsBytes : (m : Bytes) (l : MemLayout) → IsBytes m → IsBytes (mark_entry m l)
unfolding mark_entry
mark_entry-IsBytes m l h = elim (Bool-cases (l.type == 1)) [
  | inr e ↦ rw e h
  | inl e ↦ rw e (elim (Bool-cases (leb (l.start + l.size) free_mem_start)) [
    | inl g ↦ rw g h
    | inr g ↦ rw g (free_region-IsBytes m (first_page l) (end_page l) h)
  ])
]

wide :
    (l : MemLayout) (b : ℕ)
    → l.start + l.size < 2 ^ 43
    → l.start ≤ b * 32768
    → 0x601000 ≤ b * 32768
    → b * 32768 ≤ l.start + l.size
    → (first_page l + 7) / 8 ≤ end_page l / 8
wide l b fits low base high = ground arith

pages_lem :
    (l : MemLayout) (p : ℕ)
    → l.start + l.size < 2 ^ 43
    → (l.type == 1) ≡ true
    → covers p l ≡ (leb (first_page l) p && ltb p (end_page l))
pages_lem l p fits e = ground arith

used-mark_entry :
    (m : Bytes) (l : MemLayout) (p : ℕ)
    → IsBytes m
    → IsWide l
    → used (mark_entry m l) p ≡ (if covers p l then false else used m p)
unfolding mark_entry
used-mark_entry m l p h w = elim (Bool-cases (l.type == 1)) [
  | inr e ↦ rw e
  | inl e ↦ rw e (elim (Bool-cases (leb (l.start + l.size) free_mem_start)) [
    | inl g ↦ ground (arith, g)
    | inr g ↦
        let (fits, b, low, base, high) = w (ground arith) (ground arith) in
        rw
          (
            g,
            used-free_region m (first_page l) (end_page l) p h (wide l b fits low base high)
                (omega arith),
          )
          (ground (arith, pages_lem l p fits e))
  ])
]

used-init_loop :
    (m : Bytes) (n : ℕ) (l : MemLayout) (ls : List MemLayout) (p : ℕ)
    → IsBytes m
    → AllWide (entries l ls)
    → used (init_loop m n l ls).0 p ≡ (if covered p (entries l ls) then false else used m p)
unfolding init_loop entries
used-init_loop m n l [] p h w = ground (arith, used-mark_entry m l p h w.0)
used-init_loop m n l (l' ∷ ls) p h w = elim (Bool-cases (l'.start == 0)) [
  | inl e ↦
      let w' : AllWide (l ∷ []) =
        subst (λ b. AllWide (if b then l ∷ [] else l ∷ entries l' ls)) e w in
      rw e (ground (arith, used-mark_entry m l p h w'.0))
  | inr e ↦
      let w' : AllWide (l ∷ entries l' ls) =
        subst (λ b. AllWide (if b then l ∷ [] else l ∷ entries l' ls)) e w in
      rw e (
        ground (
          arith,
          used-mark_entry m l p h w'.0,
          used-init_loop (mark_entry m l) (add32 n l.size) l' ls p (mark_entry-IsBytes m l h) w'.1,
        ))
]

-- Among the 2 ^ 20 pages of the address space exactly those are free after `bitmap_init` that lie
-- wholly in a usable entry of the map and above the kernel's 0x601000. Each usable entry that reaches
-- above 0x601000 ends below 2 ^ 43 and contains, behind its beginning and 0x601000, a multiple of
-- eight pages.
pub used-bitmap_init :
    (m : Bytes) (l : MemLayout) (ls : List MemLayout) (p : ℕ)
    → IsBytes m
    → AllWide (entries l ls)
    → p < 2 ^ 20
    → used (bitmap_init m l ls).base p ≡ not (covered p (entries l ls))
unfolding bitmap_init
used-bitmap_init m l ls p h w small = ground (
  arith,
  used-init_loop (set_bytes m 0 (128 * 1024) true) 0 l ls p
      (set_bytes-IsBytes m 0 (128 * 1024) true h) w,
  used-set_bytes m 0 (128 * 1024) true p,
)
