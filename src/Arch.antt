-- ===== src/Arch.antt =====
-- source/kernel/arch.c, source/include/arch.h and the interrupt controllers of source/kernel/irq.c:
-- segment and interrupt descriptors, and the masks of the two 8259 chips. A port is known by the
-- last byte that was written to it; reading ports 0x21 and 0xa1 gives the chips' masks. The entry
-- points of the exception handlers, which are assembler, are a parameter.
pub mod Gates
pub mod Masks
use Prim.Native.Nat.{bit_and, bit_or}
use mango_os.Base.{
  ℕ, zero, suc, ◌+◌, ◌-◌, ◌*◌, ◌/◌, ◌%◌, ◌^◌, Bool, true, false, ◌||◌, ◌==◌, ltb, if◌then◌else◌,
  update, List, [], ◌∷◌,
}

-- `gdt_desc_t`
pub record GdtDesc : Type 0 where
  pub llimit : ℕ
  pub lbase : ℕ
  pub mbase : ℕ
  pub attribute : ℕ
  pub hbase : ℕ

-- `gate_desc_t`
pub record GateDesc : Type 0 where
  pub loffset : ℕ
  pub selector : ℕ
  pub attribute : ℕ
  pub hoffset : ℕ

-- The descriptor tables, and what lies behind them in memory.
abbrev pub GdtTable : Type 0
GdtTable = ℕ → GdtDesc

abbrev pub IdtTable : Type 0
IdtTable = ℕ → GateDesc

-- The granularity bit, and the limit in units of 4096 bytes if it is too large for 20 bits.
abbrev pub granular : ℕ → ℕ → ℕ × ℕ
granular limit attribute =
    if ltb 0xfffff limit then (limit / 0x1000, bit_or attribute 0x8000) else (limit, attribute)

unfoldable pub set_gdt_desc : GdtTable → ℕ → ℕ → ℕ → ℕ → GdtTable
set_gdt_desc t index base limit attribute =
    let (limit', attribute') = granular limit attribute in
    update t index (record {
      llimit = limit' % 2 ^ 16;
      lbase = base % 2 ^ 16;
      mbase = base / 2 ^ 16 % 2 ^ 8;
      attribute = bit_or attribute' (limit' / 2 ^ 16 % 2 ^ 4 * 2 ^ 8);
      hbase = base / 2 ^ 24 % 2 ^ 8;
    })

unfoldable pub set_gate_desc : IdtTable → ℕ → ℕ → ℕ → ℕ → IdtTable
set_gate_desc t index selector offset attribute = update t index (record {
  loffset = offset % 2 ^ 16;
  selector = selector;
  attribute = attribute;
  hoffset = offset / 2 ^ 16 % 2 ^ 16;
})

abbrev pub gdt_table_size : ℕ
gdt_table_size = 128

abbrev pub idt_table_size : ℕ
idt_table_size = 256

abbrev pub kernel_selector_cs : ℕ
kernel_selector_cs = 8

unfoldable pub set_tss_desc : GdtTable → ℕ → ℕ → ℕ → GdtTable
unfolding set_gdt_desc
set_tss_desc t tss size index = set_gdt_desc t index tss size 0x89

-- `for (int i=0; i<n; i++) set_gdt_desc(i, 0, 0, 0)`
unfoldable pub clear_gdt : ℕ → GdtTable → GdtTable
clear_gdt zero t = t
clear_gdt (suc n) t = set_gdt_desc (clear_gdt n t) n 0 0 0

-- The flat segments of the kernel and of the user, and the task segment at `tss`.
unfoldable pub init_gdt : ℕ → ℕ → GdtTable → GdtTable
unfolding clear_gdt
init_gdt tss size t =
    let t0 = clear_gdt gdt_table_size t in
    let t1 = set_gdt_desc t0 1 0 0xffffffff 0x409a in
    let t2 = set_gdt_desc t1 2 0 0xffffffff 0x4092 in
    let t3 = set_gdt_desc t2 3 0 0xffffffff 0x40fa in
    let t4 = set_gdt_desc t3 4 0 0xffffffff 0x40f2 in set_gdt_desc t4 5 tss size 0x89

-- Gates for privilege level 0 and, for system calls, 3.
abbrev pub kernel_gate : ℕ
kernel_gate = 0x8e00

abbrev pub user_gate : ℕ
user_gate = 0xee00

-- `true` is 0, `false` is -1. The number is not negative.
unfoldable pub irq_install : IdtTable → ℕ → ℕ → Bool × IdtTable
unfolding set_gate_desc
irq_install t irq_num handler =
    if ltb idt_table_size irq_num
    then (false, t)
    else if irq_num == 0x80
    then (true, set_gate_desc t irq_num kernel_selector_cs handler user_gate)
    else (true, set_gate_desc t irq_num kernel_selector_cs handler kernel_gate)

-- The exceptions that `init_idt` installs handlers for.
abbrev pub exceptions : List ℕ
exceptions =
    0 ∷ 1 ∷ 2 ∷ 3 ∷ 4 ∷ 5 ∷ 6 ∷ 7 ∷ 8 ∷ 10 ∷ 11 ∷ 12 ∷ 13 ∷ 14 ∷ 16 ∷ 17 ∷ 18 ∷ 19 ∷ 20 ∷ 21 ∷ []

unfoldable pub default_gates : ℕ → ℕ → IdtTable → IdtTable
unfolding set_gate_desc
default_gates zero handler t = t
default_gates (suc n) handler t =
    set_gate_desc (default_gates n handler t) n kernel_selector_cs handler kernel_gate

unfoldable pub install_all : (ℕ → ℕ) → List ℕ → IdtTable → IdtTable
unfolding irq_install
install_all handler [] t = t
install_all handler (n ∷ ns) t = install_all handler ns (irq_install t n (handler n)).1

-- The part of `init_idt` that fills the table.
unfoldable pub init_idt : ℕ → (ℕ → ℕ) → IdtTable → IdtTable
unfolding default_gates install_all
init_idt default handler t = install_all handler exceptions (default_gates idt_table_size default t)

abbrev pub Ports : Type 0
Ports = ℕ → ℕ

abbrev pub outb : Ports → ℕ → ℕ → Ports
outb p port v = update p port (v % 2 ^ 8)

unfoldable pub init_8259 : Ports → Ports
init_8259 p =
    let p1 = outb (outb (outb (outb p 0x20 0x11) 0x21 0x20) 0x21 4) 0x21 1 in
    let p2 = outb (outb (outb (outb p1 0xa0 0x11) 0xa1 0x28) 0xa1 2) 0xa1 1 in
    outb (outb p2 0x21 0xfb) 0xa1 0xff

-- `mask & ~(1 << num)` and `mask | (1 << num)` on a `uint`.
abbrev pub mask_bit : Bool → ℕ → ℕ → ℕ
mask_bit false mask num = bit_and mask (2 ^ 32 - 1 - 2 ^ num)
mask_bit true mask num = bit_or mask (2 ^ num)

-- `enable_8259` and `disable_8259` differ in the bit that they write.
abbrev set_mask : Bool → Ports → ℕ → Ports
set_mask bit p num =
    if ltb num 0x20 || ltb 0x30 num
    then p
    else if ltb (num - 0x20) 8
    then outb p 0x21 (mask_bit bit (p 0x21) (num - 0x20))
    else outb p 0xa1 (mask_bit bit (p 0xa1) (num - 0x20 - 8))

unfoldable pub enable_8259 : Ports → ℕ → Ports
enable_8259 = set_mask false

unfoldable pub disable_8259 : Ports → ℕ → Ports
disable_8259 = set_mask true

-- `init_8253` of source/kernel/time.c: the timer ticks a hundred times a second, and its interrupt is
-- installed and enabled.
unfoldable pub init_8253 : ℕ → IdtTable → Ports → IdtTable × Ports
unfolding irq_install enable_8259
init_8253 handler t p =
    let reload_count = 1193182 / (1000 / 10) in
    let p1 = outb (outb (outb p 0x43 0x36) 0x40 reload_count) 0x40 (reload_count / 2 ^ 8) in
    ((irq_install t 0x20 handler).1, enable_8259 p1 0x20)

-- The interrupt's number is at least 0x20.
unfoldable pub pic_done : Ports → ℕ → Ports
pic_done p num = let p' = if ltb (num - 0x20) 8 then p else outb p 0xa0 0x20 in outb p' 0x20 0x20
