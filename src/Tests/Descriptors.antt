-- ===== src/Tests/Descriptors.antt =====
-- Gates, masks and page directories.
use mango_os.Base.{ℕ, ◌+◌, ◌*◌, arith}
use mango_os.Arch.{IdtTable, init_idt}
use mango_os.Arch.Gates.{LeadsTo, init_idt-LeadsTo}

abbrev no_gates : IdtTable
no_gates i = record { loffset = 0; selector = 0; attribute = 0; hoffset = 0 }

abbrev handlers : ℕ → ℕ
handlers n = 0x100000 + 16 * n

init_idt-LeadsTo_example : LeadsTo 0x1000e0 0x8e00 (init_idt 0x100f00 handlers no_gates 14)
init_idt-LeadsTo_example =
    init_idt-LeadsTo 0x100f00 handlers no_gates 14 (omega arith) (omega arith) (omega arith)
