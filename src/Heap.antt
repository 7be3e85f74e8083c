-- ===== src/Heap.antt =====
-- source/mm/memory.c and source/include/memory.h: the kernel's heap. A block is known by the address
-- of its header; the headers are functions of it, 0 is `NULL`. `alloc_pages` and `free_pages` are
-- those of a page allocator with state `P`. A loop that follows links takes fuel, and `none` says
-- that it ran out.
pub mod Fit
use mango_os.Base.{
  ℕ, zero, suc, ◌+◌, ◌-◌, ◌*◌, ◌^◌, Bool, true, false, not, ◌||◌, ◌&&◌, Option, none, some, ◌==◌,
  ltb, leb, if◌then◌else◌, update, add32, sub32,
}

-- The values of `used`.
abbrev pub used_mark : ℕ
used_mark = 0xAA99BB88

abbrev pub free_mark : ℕ
free_mark = 0x88BB99AA

-- `MEM_HSIZE`: the header is packed.
abbrev pub mem_hsize : ℕ
mem_hsize = 17

-- Eight pages.
abbrev pub chunk : ℕ
chunk = 8 * 4096

-- `mem_block_t` at each address, and `free_list`.
pub record Heap : Type 0 where
  pub used : ℕ → ℕ
  pub size : ℕ → ℕ
  pub is_head : ℕ → ℕ
  pub prev : ℕ → ℕ
  pub next : ℕ → ℕ
  pub free_list : ℕ

abbrev pub set_used : ℕ → ℕ → Heap → Heap
set_used a v h = record h { used = update h.used a v }

abbrev pub set_size : ℕ → ℕ → Heap → Heap
set_size a v h = record h { size = update h.size a v }

abbrev pub set_head : ℕ → ℕ → Heap → Heap
set_head a v h = record h { is_head = update h.is_head a v }

abbrev pub set_prev : ℕ → ℕ → Heap → Heap
set_prev a v h = record h { prev = update h.prev a v }

abbrev pub set_next : ℕ → ℕ → Heap → Heap
set_next a v h = record h { next = update h.next a v }

-- The rest of a block that is larger than the request becomes a free block behind it.
unfoldable pub split : ℕ → ℕ → Heap → Heap
split current size h =
    let new_block = add32 current size in
    let h1 = set_size new_block (sub32 (h.size current) size) h in
    let h2 = set_prev new_block current h1 in
    let h3 = set_next new_block (h2.next current) h2 in
    let h4 = if h3.next current == 0 then h3 else set_prev (h3.next current) new_block h3 in
    let h5 = set_head new_block 0 (set_used new_block free_mark h4) in
    set_next current new_block (set_size current size h5)

-- The block leaves the list of free blocks.
unfoldable pub unlink : ℕ → Heap → Heap
unlink current h =
    let next = h.next current in
    let prev = h.prev current in
    if prev == 0
    then (let h1 = record h { free_list = next } in if next == 0 then h1 else set_prev next 0 h1)
    else (let h1 = set_next prev next h in if next == 0 then h1 else set_prev next prev h1)

-- The body of the loop of `kmalloc` for a block that is large enough.
unfoldable pub take_block : ℕ → ℕ → Heap → Heap
unfolding split unlink
take_block current size h =
    let h1 = if ltb (add32 size mem_hsize) (h.size current) then split current size h else h in
    unlink current (set_used current used_mark h1)

-- The first free block that is large enough, with the block before it; the block is 0 if there is
-- none.
unfoldable pub find_block : ℕ → ℕ → ℕ → ℕ → Heap → Option (ℕ × ℕ)
find_block zero current prev size h = none
find_block (suc n) current prev size h =
    let rest = find_block n (h.next current) current size h in
    if current == 0
    then some (0, prev)
    else if leb size (h.size current)
    then some (current, prev)
    else rest

-- A new chunk: the request at its beginning, and a free block behind it that is put after `prev`.
unfoldable pub add_chunk : ℕ → ℕ → ℕ → Heap → Heap
add_chunk new_block prev size h =
    let h1 = set_prev new_block 0 (set_next new_block 0 (set_size new_block size h)) in
    let h2 = set_head new_block 1 (set_used new_block used_mark h1) in
    let free_block = add32 new_block size in
    let h3 = set_size free_block (sub32 chunk size) h2 in
    let h4 = set_next free_block (h3.next prev) h3 in
    let h5 = set_prev (h4.next prev) free_block h4 in
    let h6 = set_next prev free_block (set_prev free_block prev h5) in
    set_head free_block 0 (set_used free_block free_mark h6)

-- A request that is refused at once, with the header counted in.
abbrev pub refused : ℕ → Bool
refused size = ltb size 8 || ltb chunk size

module _ {P : Type 0} (alloc_pages : ℕ → P → ℕ × P) where
  unfoldable pub mem_init : Heap → P → Heap × P
  mem_init h p =
      let (a, p') = alloc_pages 8 p in
      let h1 = set_head a 1 (set_used a free_mark (set_size a chunk h)) in
      (set_next a 0 (set_prev a 0 (record h1 { free_list = a })), p')

  -- The part of `kmalloc` behind its loop.
  unfoldable pub grow : ℕ → ℕ → Heap → P → ℕ × Heap × P
  unfolding add_chunk
  grow prev size h p =
      let (new_block, p') = alloc_pages 8 p in
      if new_block == 0
      then (0, h, p')
      else (add32 new_block mem_hsize, add_chunk new_block prev size h, p')

  unfoldable pub kmalloc : ℕ → ℕ → Heap → P → Option (ℕ × Heap × P)
  unfolding find_block take_block grow
  kmalloc fuel bytes h p =
      let size = add32 bytes mem_hsize in
      if refused size
      then some (0, h, p)
      else elim (find_block fuel h.free_list h.free_list size h) [
        | none ↦ none
        | some (zero, prev) ↦ some (grow prev size h p)
        | some (suc b, prev) ↦ some (add32 (suc b) mem_hsize, take_block (suc b) size h, p)
      ]

-- `kfree` puts the block in front of the list of free blocks.
unfoldable pub push_block : ℕ → Heap → Heap
push_block block h =
    let h1 = set_next block h.free_list h in
    let h2 = set_prev h1.free_list block h1 in
    let h3 = set_used block free_mark (set_prev block 0 h2) in record h3 { free_list = block }

-- Where the loop over neighbours stops: at the head of the next chunk, or behind the last free one.
pub data Merged : Type 0 where
  at_head : ℕ → Heap → Merged
  at_used : Heap → Merged

-- The free neighbours behind a block are added to it.
unfoldable pub merge : ℕ → ℕ → ℕ → Heap → Option Merged
merge zero current next_block h = none
merge (suc n) current next_block h =
    let h1 = set_size current (add32 (h.size current) (h.size next_block)) h in
    let h2 = set_next current (h1.next next_block) h1 in
    let h3 = set_used next_block 0 (set_prev (h2.next next_block) current h2) in
    let after = add32 current (h3.size current) in
    let rest = merge n current after h3 in
    if not (h.used next_block == free_mark)
    then some (at_used h)
    else if h3.is_head after == 1
    then some (at_head after h3)
    else rest

-- Blocks that were merged are taken off the list.
unfoldable pub skip_merged : ℕ → ℕ → Heap → Option (ℕ × Heap)
skip_merged zero current h = none
skip_merged (suc n) current h =
    let rest = skip_merged n (h.next current) (set_prev current 0 (set_next current 0 h)) in
    if not (current == 0) && (h.used current == 0) then rest else some (current, h)

-- The loop over the free blocks.
unfoldable pub merge_loop : ℕ → ℕ → Heap → Option Heap
unfolding merge skip_merged
merge_loop zero current h = none
merge_loop (suc n) current h = elim (current == 0) [
  | true ↦ some h
  | false ↦ elim (merge n current (add32 current (h.size current)) h) [
    | none ↦ none
    | some (at_head c h') ↦ merge_loop n c h'
    | some (at_used h') ↦ elim (skip_merged n (h'.next current) h') [
      | none ↦ none
      | some (c, h'') ↦ merge_loop n c h''
    ]
  ]
]

module _ {P : Type 0} (free_pages : ℕ → ℕ → P → P) where
  -- Whole chunks go back to the page allocator.
  unfoldable pub release_chunks : ℕ → ℕ → Heap → P → Option (Heap × P)
  release_chunks zero current h p = none
  release_chunks (suc n) current h p =
      let next = h.next current in
      let rest = release_chunks n next h p in
      let released = release_chunks n next (set_size current 0 h) (free_pages current 8 p) in
      if current == 0 then some (h, p) else if h.size current == chunk then released else rest

  unfoldable pub kfree : ℕ → ℕ → Heap → P → Option (Heap × P)
  unfolding push_block merge_loop release_chunks
  kfree fuel address h p =
      let h1 = push_block (sub32 address mem_hsize) h in
      if address == 0 then some (h, p) else elim (merge_loop fuel h1.free_list h1) [
        | none ↦ none
        | some h2 ↦ release_chunks fuel h2.free_list h2 p
      ]
