-- ===== src/Disk.antt =====
-- source/device/disk.c and source/include/disk.h: the driver of the disk. The controller behind the
-- ports is a parameter. A call that would wait for the mutex or for the interrupt's semaphore ends
-- there.
pub mod Errors
pub mod Setup
use Prim.Native.Nat.{bit_and}
use mango_os.Base.{
  ℕ, zero, suc, ◌+◌, ◌-◌, ◌*◌, ◌/◌, ◌%◌, ◌^◌, Bool, true, false, Option, none, some, List, [], ◌∷◌,
  ◌==◌, ltb, if◌then◌else◌, update, add32, is_pos32,
}
use mango_os.Kernel.{Kernel}
use mango_os.Ipc.{Sem, Mutex, sem_wait, mutex_lock, mutex_unlock}
use mango_os.Ipc.Guarded.{enters}
use mango_os.Strings.{Memory, word, half, store_half}

-- The instructions on the controller's ports.
pub record IdePorts (D : Type 0) : Type 0 where
  pub outb : ℕ → ℕ → D → D
  pub inb : ℕ → D → ℕ × D
  pub outw : ℕ → ℕ → D → D
  pub inw : ℕ → D → ℕ × D

-- `part_info_t`
pub record Part : Type 0 where
  pub name : List ℕ
  pub part_type : ℕ
  pub begin_sec : ℕ
  pub count : ℕ

-- `mutex`, `sem`, `part_info` and `wait_interupt`, with the kernel and the controller.
pub record Disk (D : Type 0) : Type 0 where
  pub kernel : Kernel
  pub mutex : Mutex
  pub sem : Sem
  pub part_info : ℕ → Part
  pub wait_interupt : ℕ
  pub device : D

-- A transfer ends with its answer and the memory, waits, or is stuck for want of fuel.
pub data Transfer (D : Type 0) : Type 0 where
  done : ℕ → Memory → Disk D → Transfer D
  waits : Disk D → Transfer D
  stuck : Transfer D

-- `-ENOPART` and `-ENODISK`
abbrev pub no_part : ℕ
no_part = 2 ^ 32 - 12

abbrev pub no_disk : ℕ
no_disk = 2 ^ 32 - 11

-- The rounds of `for (i=0; i<count; i++)`.
abbrev pub rounds : ℕ → ℕ
rounds count = if is_pos32 count then count else 0

module _ {D : Type 0} (io : IdePorts D) where
  -- Writes values to ports, one after the other.
  unfoldable pub send : List (ℕ × ℕ) → D → D
  send [] d = d
  send ((port, value) ∷ rest) d = send rest (io.outb port value d)

  unfoldable pub send_cmd : ℕ → ℕ → ℕ → D → D
  unfolding send
  send_cmd start_sec count cmd d =
      send
        ((502, 224)
          ∷ (498, count / 2 ^ 8 % 2 ^ 8)
          ∷ (499, start_sec / 2 ^ 24 % 2 ^ 8)
          ∷ (500, 0)
          ∷ (501, 0)
          ∷ (498, count % 2 ^ 8)
          ∷ (499, start_sec % 2 ^ 8)
          ∷ (500, start_sec / 2 ^ 8 % 2 ^ 8)
          ∷ (501, start_sec / 2 ^ 16 % 2 ^ 8)
          ∷ (503, cmd % 2 ^ 8)
          ∷ [])
        d

  -- The words are counted, not the bytes.
  unfoldable pub read_data : ℕ → ℕ → Memory → D → Memory × D
  read_data zero p m d = (m, d)
  read_data (suc n) p m d = let (w, d') = io.inw 496 d in read_data n (p + 2) (store_half p w m) d'

  unfoldable pub write_data : ℕ → ℕ → Memory → D → D
  write_data zero p m d = d
  write_data (suc n) p m d = write_data n (p + 2) m (io.outw 496 (half m p) d)

  -- Whether the status has the error bit, once it is not busy alone.
  unfoldable pub wait_data : ℕ → D → Option (Bool × D)
  wait_data zero d = none
  wait_data (suc n) d =
      let (status, d') = io.inb 503 d in
      let rest = wait_data n d' in
      if bit_and status 137 == 128 then rest else some (status % 2 == 1, d')

  -- Entry `i` of the table of partitions, read at byte 446 of the first sector.
  abbrev pub part_of : Memory → ℕ → Part → Part
  part_of m i part =
      let item = 446 + 16 * i in
      if m (item + 4) == 0
      then record part { count = 0; begin_sec = 0; part_type = 0 }
      else record {
        name = 83 ∷ 68 ∷ 65 ∷ (48 + i) ∷ [];
        part_type = m (item + 4);
        begin_sec = word m (item + 8);
        count = word m (item + 12);
      }

  unfoldable pub load_parts : ℕ → ℕ → Memory → (ℕ → Part) → ℕ → Part
  load_parts zero i m parts = parts
  load_parts (suc n) i m parts =
      load_parts n (i + 1) m (update parts (i + 1) (part_of m i (parts (i + 1))))

  -- The answer and the partitions; `none` is a status that stays busy.
  unfoldable pub load_part_info : ℕ → (ℕ → Part) → D → Option (ℕ × (ℕ → Part) × D)
  unfolding send_cmd wait_data read_data load_parts
  load_part_info fuel parts d = elim (wait_data fuel (send_cmd 0 1 36 d)) [
    | none ↦ none
    | some (true, d') ↦ some (no_disk, parts, d')
    | some (false, d') ↦
        let (m, d'') = read_data 256 0 (λ a. 0) d' in some (0, load_parts 4 0 m parts, d'')
  ]

  -- `if (current) sem_wait(&sem)`: whether the call goes on.
  unfoldable pub await : Disk D → Bool × Disk D
  await s =
      let (k, sem) = sem_wait s.kernel s.sem in
      if s.kernel.current == 0
      then (true, s)
      else (is_pos32 s.sem.count, record s { kernel = k; sem = sem })

  -- `mutex_unlock(&mutex); return i` behind the loops of `disk_read` and `disk_write`.
  unfoldable pub finish : ℕ → Memory → Disk D → Transfer D
  finish i m s =
      let (k, mu) = mutex_unlock s.kernel s.mutex in done i m (record s { kernel = k; mutex = mu })

  -- The loop of `disk_read` on the sectors left, and what follows it; `i` have been read. An error
  -- returns at once.
  unfoldable pub read_loop : ℕ → ℕ → ℕ → ℕ → Memory → Disk D → Transfer D
  unfolding await wait_data read_data finish
  read_loop fuel zero buf i m s = finish i m s
  read_loop fuel (suc n) buf i m s =
      let (goes, s') = await s in
      elim goes [
        | false ↦ waits s'
        | true ↦ elim (wait_data fuel s'.device) [
          | none ↦ stuck
          | some (true, d) ↦ done no_disk m (record s' { device = d })
          | some (false, d) ↦
              let (m', d') = read_data 256 buf m d in
              read_loop fuel n (buf + 512) (i + 1) m' (record s' { device = d' })
        ]
      ]

  -- The loop of `disk_write`, and what follows it.
  unfoldable pub write_loop : ℕ → ℕ → ℕ → ℕ → Memory → Disk D → Transfer D
  unfolding await wait_data write_data finish
  write_loop fuel zero buf i m s = finish i m s
  write_loop fuel (suc n) buf i m s =
      let (goes, s') = await (record s { device = write_data 256 buf m s.device }) in
      elim goes [
        | false ↦ waits s'
        | true ↦ elim (wait_data fuel s'.device) [
          | none ↦ stuck
          | some (true, d) ↦ done no_disk m (record s' { device = d })
          | some (false, d) ↦ write_loop fuel n (buf + 512) (i + 1) m (record s' { device = d })
        ]
      ]

  -- What `disk_read` and `disk_write` do before their loops.
  unfoldable pub start : ℕ → ℕ → ℕ → ℕ → (Disk D → Transfer D) → Memory → Disk D → Transfer D
  unfolding send_cmd
  start cmd minor begin_sec count loop m s =
      let (k, mu) = mutex_lock s.kernel s.mutex in
      let part = s.part_info (minor % 16) in
      let s' = record s { kernel = k; mutex = mu } in
      if enters s.kernel s.mutex
      then (if part.count == 0
          then done no_part m s'
          else loop (record s' {
            wait_interupt = 1;
            device = send_cmd (add32 part.begin_sec begin_sec) count cmd s.device;
          }))
      else waits s'

  unfoldable pub disk_read : ℕ → ℕ → ℕ → ℕ → ℕ → Memory → Disk D → Transfer D
  unfolding start read_loop
  disk_read fuel minor begin_sec buf count m s =
      start 36 minor begin_sec count (read_loop fuel (rounds count) buf 0 m) m s

  unfoldable pub disk_write : ℕ → ℕ → ℕ → ℕ → ℕ → Memory → Disk D → Transfer D
  unfolding start write_loop
  disk_write fuel minor begin_sec buf count m s =
      start 52 minor begin_sec count (write_loop fuel (rounds count) buf 0 m) m s
