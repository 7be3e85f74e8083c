-- ===== src/Ext2/Mount/Ends.antt =====
-- Every step of a mount goes on with the same volume or makes it fail.
use mango_os.Base.{
  ℕ, zero, suc, ◌+◌, ◌*◌, ◌/◌, ◌<◌, ◌≤◌, ◌≡◌, ◌⊎◌, inl, inr, refl, ltb, ◌-◌, ◌^◌, arith, Bool-cases,
  is_pos32, mul32, if◌then◌else◌,
}
use mango_os.Ext2.{SuperBlock}
use mango_os.Ext2.Mount.{
  MountCalls, Mounting, Step, goes, answers, no_memory, copy_round, set_group,
}
use mango_os.Ext2.Mount.Groups.{give_up, bitmap_loop, load_bitmap, alloc_bitmaps}

module _ {W : Type 0} (calls : MountCalls W) where
  -- A step that goes on with the same volume, or makes the mount fail for want of memory.
  abbrev pub GoesOrFails : Step W (Unit {0}) → SuperBlock → Type 0
  GoesOrFails r super =
      ((s' : Mounting W) × (r ≡ goes tt s') × (s'.super ≡ super))
      ⊎ ((s' : Mounting W) × (r ≡ answers no_memory s'))

  abbrev pub Fails : {A : Type 0} → Step W A → Type 0
  Fails r = (s' : Mounting W) × (r ≡ answers no_memory s')

  pub give_up-answers :
      {A : Type 0} (i dev : ℕ) (s : Mounting W) → Fails (give_up calls {A = A} i dev s)
  unfolding give_up
  give_up-answers i dev s = (_, refl)

  bitmap_loop_ends :
      (n i dev area sector to offset left size : ℕ) (s : Mounting W)
      → left ≤ 8 * n
      → 0 < n
      → GoesOrFails (bitmap_loop calls n i dev area sector to offset left size s) s.super
  unfolding bitmap_loop
  bitmap_loop_ends zero i dev area sector to offset left size s enough pos = elim pos [ ]
  bitmap_loop_ends (suc n) i dev area sector to offset left size s enough pos =
      let q = calls.dev_read dev sector area (if ltb 8 left then 8 else left) s.memory s.world in
      let s1 = record s { memory = q.1; world = q.2 } in
      let s2 = record s1 { memory = copy_round area to offset left size q.1 } in
      elim (Bool-cases (is_pos32 q.0)) [
        | inr e ↦
            let (s', f) = give_up-answers {A = Unit {0}} i dev s1 in inr (s', ground (arith, e, f))
        | inl e ↦ elim (Bool-cases (ltb 8 left)) [
          | inr l ↦ inl (s2, ground (arith, e, l), refl)
          | inl l ↦
              elim (bitmap_loop_ends n i dev area sector to (offset + 1) (left - 8) size s2
                (ground arith) (ground arith)) [
                  | inl (s', f, g) ↦ inl (s', ground (arith, e, l, f), g)
                  | inr (s', f) ↦ inr (s', ground (arith, e, l, f))
                ]
        ]
      ]

  -- A bitmap has at most 127 whole sectors, so sixteen rounds are enough.
  pub load_bitmap_ends :
      (i dev area block to size : ℕ) (s : Mounting W)
      → size < 2 ^ 16
      → GoesOrFails (load_bitmap calls i dev area block to size s) s.super
  unfolding load_bitmap
  load_bitmap_ends i dev area block to size s small =
      bitmap_loop_ends 16 i dev area (mul32 block s.super.block_size / 512) to 0 (size / 512) size s
        (omega arith) (omega arith)

  pub alloc_bitmaps_goes :
      (n i : ℕ) (s : Mounting W)
      → (s' : Mounting W) × (alloc_bitmaps calls n i s ≡ goes tt s') × (s'.super ≡ s.super)
  unfolding alloc_bitmaps
  alloc_bitmaps_goes zero i s = (s, refl, refl)
  alloc_bitmaps_goes (suc n) i s =
      let d = s.super.group_table i in
      let b = calls.kmalloc d.block_bitmap_size s.world in
      let p = calls.kmalloc d.inode_bitmap_size b.1 in
      alloc_bitmaps_goes n (i + 1) (
        set_group i (record (s.groups_at i) { block_bitmap = b.0; inode_bitmap = p.0 })
          (record s { world = p.1 }))
