-- ===== src/Disk/Setup/Absent.antt =====
-- A machine without a disk.
use mango_os.Base.{ℕ, ◌≡◌, ◌%◌, refl, ap, ◌∙◌, ◌-◌, ◌^◌, true, some, ◌==◌, arith}
use mango_os.Ipc.{mutex_init, sem_init}
use mango_os.Arch.{IdtTable, Ports}
use mango_os.Disk.{IdePorts, Part, Disk, no_part, send_cmd}
use mango_os.Disk.Setup.{load_disk_info, disk_init, disk_open}

no_info :
    {D : Type 0} (io : IdePorts D) (fuel area : ℕ) (s : Disk D)
    → (io.inb 503 (send_cmd io 0 0 0xEC s.device)).0 ≡ 0
    → (s' : Disk D) × (load_disk_info io fuel area s ≡ some (2 ^ 32 - 11, s'))
      × (s'.part_info ≡ s.part_info)
unfolding load_disk_info
no_info io fuel area s e =
    (record s { device = (io.inb 503 (send_cmd io 0 0 0xEC s.device)).1 }, ground (arith, e), refl)

-- When the controller's status is 0 behind the command to identify the disk and no partition has a
-- sector, `disk_init` ends with any fuel, and afterwards `disk_open` answers -ENOPART for every minor
-- number and leaves the interrupts alone.
pub disk_init-absent :
    {D : Type 0} (io : IdePorts D) (fuel area : ℕ) (s : Disk D)
    → (io.inb 503 (send_cmd io 0 0 0xEC s.device)).0 ≡ 0
    → ((i : ℕ) → (s.part_info i).count ≡ 0)
    → (s' : Disk D) × (disk_init io fuel area s ≡ some s')
      × ((minor handler : ℕ) (t : IdtTable) (p : Ports)
          → disk_open minor s'.part_info handler t p ≡ (no_part, t, p))
unfolding disk_init disk_open
disk_init-absent io fuel area s e empty =
    let (k, mu) = mutex_init s.kernel s.mutex.mutex_queue in
    let (k', sem) = sem_init k s.sem.sem_queue 0 in
    let (s', f, same) = no_info io fuel area (record s { kernel = k'; mutex = mu; sem = sem }) e in
    let none_left : (i : ℕ) → ((s'.part_info i).count == 0) ≡ true =
      λ i. ap (λ (parts : ℕ → Part). (parts i).count == 0) same ∙ ap (λ n. n == 0) (empty i) in
    (s', ground (arith, f), λ minor handler t p. ground (arith, none_left (minor % 16)))
