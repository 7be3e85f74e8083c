-- ===== src/Arch/Gates.antt =====
-- The interrupt descriptor table.
use mango_os.Base.{
  ℕ, zero, suc, ◌+◌, ◌*◌, ◌/◌, ◌%◌, ◌^◌, ◌<◌, ◌≤◌, ◌≡◌, refl, Bool, true, false, ◌==◌,
  if◌then◌else◌, List, [], ◌∷◌, mem, arith, leb, ◌||◌, ◌&&◌,
}
use mango_os.Arch.{
  GateDesc, IdtTable, irq_install, set_gate_desc, idt_table_size, kernel_selector_cs, kernel_gate,
  user_gate, exceptions, default_gates, install_all, init_idt,
}

-- The address that a gate leads to.
abbrev pub target : GateDesc → ℕ
target g = g.loffset + g.hoffset * 2 ^ 16

-- A gate into the second segment of the descriptor table, the kernel's code, that leads to the handler.
abbrev pub LeadsTo : ℕ → ℕ → GateDesc → Type 0
LeadsTo handler attribute g = (target g ≡ handler) × (g.selector ≡ 8) × (g.attribute ≡ attribute)

-- The gate that `irq_install` writes.
abbrev gate : ℕ → ℕ → GateDesc
gate handler attribute = record {
  loffset = handler % 2 ^ 16;
  selector = kernel_selector_cs;
  attribute = attribute;
  hoffset = handler / 2 ^ 16 % 2 ^ 16;
}

-- A number up to 256, which is one more than the table has room for, gets a gate to its handler, open
-- to the user only for system calls, and no other gate changes.
pub irq_install-LeadsTo :
    (t : IdtTable) (n handler : ℕ)
    → handler < 2 ^ 32
    → n ≤ idt_table_size
    → ((irq_install t n handler).0 ≡ true)
      × LeadsTo handler
          (if n == 0x80 then user_gate else kernel_gate)
          ((irq_install t n handler).1 n)
      × ((i : ℕ)
          → (irq_install t n handler).1 i ≡ (if i == n then (irq_install t n handler).1 n else t i))
unfolding irq_install set_gate_desc
irq_install-LeadsTo t n handler small h =
    (ground arith, (ground arith, ground arith, ground arith), λ i. ground arith)

irq_install_entry :
    (t : IdtTable) (n handler i : ℕ)
    → n < 0x80
    → (irq_install t n handler).1 i ≡ (if i == n then gate handler kernel_gate else t i)
unfolding irq_install set_gate_desc
irq_install_entry t n handler i h = ground arith

install_all_entry :
    (handler : ℕ → ℕ) (ns : List ℕ) (t : IdtTable) (i : ℕ)
    → ((n : ℕ) → mem n ns ≡ true → n < 0x80)
    → install_all handler ns t i ≡ (if mem i ns then gate (handler i) kernel_gate else t i)
unfolding install_all
install_all_entry handler [] t i small = refl
install_all_entry handler (n ∷ ns) t i small = ground (
  arith,
  install_all_entry handler ns (irq_install t n (handler n)).1 i (λ m h. small m (ground arith)),
  irq_install_entry t n (handler n) i (small n (ground arith)),
)

default_gates_entry :
    (n handler i : ℕ) (t : IdtTable)
    → i < n
    → default_gates n handler t i ≡ gate handler kernel_gate
unfolding default_gates set_gate_desc
default_gates_entry zero handler i t l = absurd (omega arith)
default_gates_entry (suc n) handler i t l = ground (arith, default_gates_entry n handler i t)

exceptions-small : (n : ℕ) → mem n exceptions ≡ true → n < 0x80
exceptions-small n h = ground arith

gate-LeadsTo :
    (handler : ℕ) → handler < 2 ^ 32 → LeadsTo handler kernel_gate (gate handler kernel_gate)
gate-LeadsTo handler h = (omega arith, refl, refl)

-- The numbers of the processor's exceptions up to 21: 9 and 15 are reserved.
abbrev pub is_exception : ℕ → Bool
is_exception i = leb i 8 || ((leb 10 i && leb i 14) || (leb 16 i && leb i 21))

mem-exceptions : (i : ℕ) → mem i exceptions ≡ is_exception i
mem-exceptions i = ground arith

-- After `init_idt` each of the 256 gates is a 32-bit interrupt gate that is present, closed to the user
-- (0x8e00), and leads to the handler of its exception, for 0 to 21 without 9 and 15, or to the default
-- handler.
pub init_idt-LeadsTo :
    (default : ℕ) (handler : ℕ → ℕ) (t : IdtTable) (i : ℕ)
    → default < 2 ^ 32
    → handler i < 2 ^ 32
    → i < 256
    → LeadsTo (if is_exception i then handler i else default) 0x8e00 (init_idt default handler t i)
unfolding init_idt
init_idt-LeadsTo default handler t i d h l =
    let e =
      install_all_entry handler exceptions (default_gates idt_table_size default t) i
        exceptions-small in
    let f = default_gates_entry idt_table_size default i t l in
    rw (e, mem-exceptions i) (chosen (is_exception i) f)
  where
    chosen :
        (b : Bool)
        → default_gates idt_table_size default t i ≡ gate default kernel_gate
        → LeadsTo
            (if b then handler i else default)
            kernel_gate
            (if b then gate (handler i) kernel_gate else default_gates idt_table_size default t i)
    chosen true f = gate-LeadsTo (handler i) h
    chosen false f = rw f (gate-LeadsTo default d)
