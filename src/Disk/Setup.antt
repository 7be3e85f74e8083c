-- ===== src/Disk/Setup.antt =====
-- disk_init, load_disk_info, disk_open, disk_close and do_handler_ide of source/device/disk.c.
pub mod Absent
use mango_os.Base.{
  ℕ, true, false, not, ◌&&◌, Option, none, some, [], ◌∷◌, ◌==◌, if◌then◌else◌, update, add32, ◌%◌,
}
use mango_os.Ipc.{sem_init, sem_notify, mutex_init}
use mango_os.Arch.{IdtTable, Ports, irq_install, enable_8259, disable_8259, pic_done}
use mango_os.Disk.{
  IdePorts, Part, Disk, no_part, no_disk, send_cmd, wait_data, read_data, load_part_info,
}

-- The vector of the disk's interrupt.
abbrev pub ide_vector : ℕ
ide_vector = 0x2E

-- The entry for the whole disk. Its count is the address of a word of the array `data`, which lies at
-- `area`.
abbrev pub whole_disk : ℕ → Part
whole_disk area = record {
  name = 83 ∷ 68 ∷ 65 ∷ [];
  part_type = 0;
  begin_sec = 0;
  count = add32 area 200;
}

module _ {D : Type 0} (io : IdePorts D) where
  -- The answer; what `load_part_info` answers is dropped, and `none` is a status that stays busy.
  unfoldable pub load_disk_info : ℕ → ℕ → Disk D → Option (ℕ × Disk D)
  unfolding send_cmd wait_data read_data load_part_info
  load_disk_info fuel area s =
      let (status, d) = io.inb 503 (send_cmd io 0 0 0xEC s.device) in
      elim (status == 0) [
        | true ↦ some (no_disk, record s { device = d })
        | false ↦ elim (wait_data io fuel d) [
          | none ↦ none
          | some (true, d') ↦ some (no_disk, record s { device = d' })
          | some (false, d') ↦
              let d2 = (read_data io 256 0 (λ a. 0) d').1 in
              elim (load_part_info io fuel (update s.part_info 0 (whole_disk area)) d2) [
                | none ↦ none
                | some (n, parts, d3) ↦ some (0, record s { part_info = parts; device = d3 })
              ]
        ]
      ]

  -- The lists of the mutex and of the semaphore are where `mutex_queue` and `sem_queue` say.
  unfoldable pub disk_init : ℕ → ℕ → Disk D → Option (Disk D)
  unfolding mutex_init sem_init load_disk_info
  disk_init fuel area s =
      let (k, mu) = mutex_init s.kernel s.mutex.mutex_queue in
      let (k', sem) = sem_init k s.sem.sem_queue 0 in
      elim (load_disk_info fuel area (record s { kernel = k'; mutex = mu; sem = sem })) [
        | none ↦ none
        | some (answer, s') ↦ some s'
      ]

  -- The controllers of interrupts are those of Arch.
  unfoldable pub do_handler_ide : Disk D → Ports → Disk D × Ports
  unfolding sem_notify pic_done
  do_handler_ide s p =
      let (k, sem) = sem_notify s.kernel s.sem in
      (
        if not (s.wait_interupt == 0) && not (s.kernel.current == 0)
            then record s { kernel = k; sem = sem }
            else s,
        pic_done p ide_vector,
      )

-- The device's minor number says the partition; a partition without sectors is refused.
unfoldable pub disk_open : ℕ → (ℕ → Part) → ℕ → IdtTable → Ports → ℕ × IdtTable × Ports
unfolding irq_install enable_8259
disk_open minor parts handler t p =
    if (parts (minor % 16)).count == 0
    then (no_part, t, p)
    else (0, (irq_install t ide_vector handler).1, enable_8259 p ide_vector)

unfoldable pub disk_close : Ports → Ports
unfolding disable_8259
disk_close p = disable_8259 p ide_vector
