-- ===== src/Ext2/Mount/Small.antt =====
-- A volume whose groups have few inodes.
use mango_os.Base.{
  ℕ, suc, ◌+◌, ◌/◌, ◌<◌, ◌≢◌, ◌≡◌, ◌∙◌, inl, inr, ap, true, false, ◌==◌, leb, ◌-◌, ◌^◌, arith,
  Bool-cases, is_pos32, mul32, add32,
}
use mango_os.Strings.{Memory, word, kmemcpy}
use mango_os.Ext2.{SuperBlock}
use mango_os.Ext2.Mount.{
  MountCalls, Mounting, answers, no_memory, bitmap_size, count_groups, set_super, group_rounds,
  super_block_size, group_desc_size,
}
use mango_os.Ext2.Mount.Groups.{bitmap_loop, load_bitmap, load_groups}
use mango_os.Ext2.Mount.Whole.{mount_volume, ext2_mount}
use mango_os.Ext2.Mount.Ends.{Fails, give_up-answers, load_bitmap_ends, alloc_bitmaps_goes}

-- The device reads nothing when it is asked for no sector.
module _ {W : Type 0} (calls : MountCalls W)
    (none_read : (dev sector at : ℕ) (m : Memory) (w : W)
      → is_pos32 (calls.dev_read dev sector at 0 m w).0 ≡ false) where
  nothing_read :
      (n i dev area sector to size : ℕ) (s : Mounting W)
      → Fails calls (bitmap_loop calls (suc n) i dev area sector to 0 0 size s)
  unfolding bitmap_loop
  nothing_read n i dev area sector to size s =
      let q = calls.dev_read dev sector area 0 s.memory s.world in
      let (s', f) =
        give_up-answers calls {A = Unit {0}} i dev (record s { memory = q.1; world = q.2 }) in
      let nothing = none_read dev sector area s.memory s.world in (s', ground (arith, nothing, f))

  load_bitmap_small :
      (i dev area block to size : ℕ) (s : Mounting W)
      → size < 512
      → Fails calls (load_bitmap calls i dev area block to size s)
  unfolding load_bitmap
  load_bitmap_small i dev area block to size s small =
      let sector = mul32 block s.super.block_size / 512 in
      let none_left : size / 512 ≡ 0 = omega arith in
      let (s', f) = nothing_read 15 i dev area sector to size s in
      (s', ap (λ left. bitmap_loop calls 16 i dev area sector to 0 left size s) none_left ∙ f)

  load_groups_small :
      (n i dev area : ℕ) (s : Mounting W)
      → (s.super.group_table i).block_bitmap_size < 2 ^ 16
      → (s.super.group_table i).inode_bitmap_size < 512
      → Fails calls (load_groups calls (suc n) i dev area s)
  unfolding load_groups
  load_groups_small n i dev area s b p =
      let d = s.super.group_table i in
      let at = s.groups_at i in
      elim (load_bitmap_ends calls i dev area d.block_bitmap at.block_bitmap d.block_bitmap_size s
        b) [
          | inr (s', e) ↦ (s', ground (arith, e))
          | inl (s1, e, same) ↦
              let (s', f) =
                load_bitmap_small i dev area d.inode_bitmap at.inode_bitmap d.inode_bitmap_size s1
                  p in
              (s', ground (arith, e, f))
        ]

  mount_volume_small :
      (dev area : ℕ) (s : Mounting W)
      → let p = calls.kmalloc 4096 s.world in
        let m = kmemcpy s.memory p.0 area 4096 in
        word m (area + 32) ≢ 0
        → is_pos32 (count_groups (word m (area + 4)) (word m (area + 32))) ≡ true
        → bitmap_size (word m (area + 40)) < 512
        → Fails calls (mount_volume calls dev area s)
  unfolding mount_volume
  mount_volume_small dev area s ne some_group few =
      let p = calls.kmalloc 4096 s.world in
      let m = kmemcpy s.memory p.0 area 4096 in
      let groups = count_groups (word m (area + 4)) (word m (area + 32)) in
      let q = calls.kmalloc (add32 super_block_size (mul32 groups group_desc_size)) p.1 in
      let s1 = record s { p_super_block = p.0; memory = m; world = q.1 } in
      let s2 = record (set_super area s1) { super_at = q.0 } in
      let given : (word m (area + 32) == 0) ≡ false = ground arith in
      elim (Bool-cases (q.0 == 0)) [
        | inl e ↦ (record s1 { world = calls.dev_close dev q.1 }, ground (arith, given, e))
        | inr e ↦
            let (s3, f, same) = alloc_bitmaps_goes calls (group_rounds groups) 0 s2 in
            let sizes = ap (λ (v : SuperBlock). (v.group_table 0).inode_bitmap_size) same in
            let sizes' = ap (λ (v : SuperBlock). (v.group_table 0).block_bitmap_size) same in
            let (s', g) =
              load_groups_small (groups - 1) 0 dev area s3 (omega (arith, sizes'))
                (omega (arith, sizes)) in
            let rounds : group_rounds groups ≡ suc (groups - 1) = ground arith in
            let h = ap (λ n. load_groups calls n 0 dev area s3) rounds ∙ g in
            (s', ground (arith, given, e, f, h))
      ]

-- A device that reads nothing when it is asked for no sector cannot hold a volume with less than 512
-- bytes for the bitmap of a group's inodes: once the first sectors are read, the mount ends with the
-- answer -ENOMEM, whatever memory and the device give. The number of blocks in a group is not 0, and
-- there is a group.
pub ext2_mount-small :
    {W : Type 0} (calls : MountCalls W) (area major minor : ℕ) (s : Mounting W)
    → ((dev sector at : ℕ) (m : Memory) (w : W)
        → is_pos32 (calls.dev_read dev sector at 0 m w).0 ≡ false)
    → let r = calls.dev_open major minor s.world in
      let q = calls.dev_read r.0 2 area 7 s.memory r.1 in
      let m = kmemcpy q.1 (calls.kmalloc 4096 q.2).0 area 4096 in
      leb (2 ^ 31) r.0 ≡ false
      → is_pos32 q.0 ≡ true
      → word m (area + 32) ≢ 0
      → is_pos32 (count_groups (word m (area + 4)) (word m (area + 32))) ≡ true
      → bitmap_size (word m (area + 40)) < 512
      → (s' : Mounting W) × (ext2_mount calls area major minor s ≡ answers no_memory s')
unfolding ext2_mount
ext2_mount-small calls area major minor s none_read opened some_read ne some_group few =
    let r = calls.dev_open major minor s.world in
    let q = calls.dev_read r.0 2 area 7 s.memory r.1 in
    let (s', e) =
      mount_volume_small calls none_read r.0 area (record s { memory = q.1; world = q.2 }) ne
        some_group few in
    (s', ground (arith, opened, some_read, e))
