-- ===== src/Process/Switch/Resumes.antt =====
-- A task that is switched to goes on where it was, and a new one at its entry.
use mango_os.Base.{
  ℕ, ◌+◌, ◌-◌, ◌^◌, ◌<◌, ◌≤◌, ◌≡◌, ◌≢◌, ◌⊎◌, ◌∙◌, refl, ap, sym, update, add32, arith,
}
use mathlib.Core.Path.{subst}
use mango_os.Queue.{Addr}
use mango_os.Strings.{word}
use mango_os.Process.{Procs, rq_of}
use mango_os.Process.Start.{push_all, first_stack, set_stack}
use mango_os.Process.Switch.{Registers, Cpu, pushed, pop_all, switch_context}
use mango_os.Process.Switch.Stacks.{
  Stacked, AreWords, SameBetween, push_all_esp, push_all_other, Stacked-same, push_all-Stacked,
}

-- Where the processor goes on, and its registers, stack and task.
abbrev pub GoesOn : ℕ × Cpu → ℕ → Registers → ℕ → Addr → Type 0
GoesOn r eip registers esp current =
    (r.0 ≡ eip) × (r.1.registers ≡ registers) × (r.1.esp ≡ esp) × (r.1.current ≡ current)

pop_all-Stacked :
    (c : Cpu) (ret : ℕ) (r : Registers) (current top : ℕ)
    → 44 ≤ top
    → top < 2 ^ 32
    → c.esp ≡ top - 44
    → Stacked c.memory top (pushed ret r current)
    → GoesOn (pop_all c) ret r top current
unfolding pop_all
pop_all-Stacked c ret r current top fits small e s =
    let at : (k d v : ℕ)
        → c.esp + k ≡ d
        → d < 2 ^ 32
        → word c.memory d ≡ v
        → word c.memory (add32 c.esp k) ≡ v =
      λ k d v here below h. ap (word c.memory) (omega arith) ∙ h in
    let (x40, (x36, (x32, (x28, (x24, (x20, (x16, (x12, (x8, (x4, (x0, end))))))))))) = s in
    let f36 = at 36 _ r.ebx (omega arith) (omega arith) x36 in
    let f32 = at 32 _ r.ebp (omega arith) (omega arith) x32 in
    let f28 = at 28 _ r.eflags (omega arith) (omega arith) x28 in
    let f24 = at 24 _ r.eax (omega arith) (omega arith) x24 in
    let f16 = at 16 _ r.ecx (omega arith) (omega arith) x16 in
    let f12 = at 12 _ r.edx (omega arith) (omega arith) x12 in
    let f8 = at 8 _ r.esi (omega arith) (omega arith) x8 in
    let f4 = at 4 _ r.edi (omega arith) (omega arith) x4 in
    (
      at 40 _ ret (omega arith) (omega arith) x40,
      λ i. record {
        ebp = f32 i;
        eflags = f28 i;
        eax = f24 i;
        ebx = f36 i;
        ecx = f16 i;
        edx = f12 i;
        esi = f8 i;
        edi = f4 i;
      },
      omega arith,
      at 0 _ current (omega arith) (omega arith) x0,
    )

-- The state before the pops, when the task at `prev` is left for `next`.
abbrev left : ℕ → Addr → Addr → Cpu → Cpu
left ret prev next c =
    let (esp', m) = push_all (pushed ret c.registers c.current) c.esp c.memory in
    let saved = update c.saved_esp prev esp' in
    record c { memory = m; saved_esp = saved; esp = saved next }

switch_context-left :
    (ret : ℕ) (prev next : Addr) (c : Cpu)
    → switch_context ret prev next c ≡ pop_all (left ret prev next c)
unfolding switch_context
switch_context-left ret prev next c = refl

-- A switch from any task to one whose stack stands in memory, apart from what the switch pushes.
module _ (ret' : ℕ) (other task : Addr) (c : Cpu) (ret : ℕ) (r : Registers) (current top : ℕ)
    (fits : 44 ≤ top) (small : top < 2 ^ 32) (here : c.saved_esp task ≡ top - 44)
    (ne : other ≢ task) (stack : Stacked c.memory top (pushed ret r current)) (room : 44 ≤ c.esp)
    (below : c.esp < 2 ^ 32) (apart : (c.esp ≤ top - 44) ⊎ (top ≤ c.esp - 44)) where
  enters_stack : GoesOn (switch_context ret' other task c) ret r top current
  enters_stack =
      let vs = pushed ret' c.registers c.current in
      let d = left ret' other task c in
      let same : SameBetween c.memory d.memory (top - 44) top =
        λ a lo hi. push_all_other vs c.esp c.memory a room below (omega arith) in
      let goes =
        pop_all-Stacked d ret r current top fits small (ground (arith, here))
          (Stacked-same (pushed ret r current) top c.memory d.memory fits same stack) in
      subst (λ x. GoesOn x ret r top current) (sym (switch_context-left ret' other task c)) goes

stored : (f : ℕ → ℕ) (a v : ℕ) → update f a v a ≡ v
stored f a v = ground arith

-- A task that is switched away from and whose place on its stack, with the bytes there, is still as
-- the switch left it, goes on behind the call when it is switched to again: with all its registers,
-- its stack pointer and itself as `current`. The switch back comes from another task, whose stack
-- lies apart, whatever that task and others have done.
pub switch_context-resumes :
    (ret ret' : ℕ) (prev next other : Addr) (c c' : Cpu)
    → c.current ≡ prev
    → next ≢ prev
    → other ≢ prev
    → AreWords (pushed ret c.registers prev)
    → 44 ≤ c.esp
    → c.esp < 2 ^ 32
    → let gone = (switch_context ret prev next c).1 in
      c'.saved_esp prev ≡ gone.saved_esp prev
      → SameBetween gone.memory c'.memory (c.esp - 44) c.esp
      → 44 ≤ c'.esp
      → c'.esp < 2 ^ 32
      → (c'.esp ≤ c.esp - 44) ⊎ (c.esp ≤ c'.esp - 44)
      → GoesOn (switch_context ret' other prev c') ret c.registers c.esp prev
unfolding switch_context pop_all
switch_context-resumes ret ret' prev next other c c' me ne ne' words fits small place same room
      below apart =
    let vs = pushed ret c.registers prev in
    let vs' = pushed ret c.registers c.current in
    let m = (push_all vs' c.esp c.memory).1 in
    let mine : vs' ≡ vs = ap (pushed ret c.registers) me in
    let stacked =
      subst (Stacked m c.esp) mine
        (push_all-Stacked vs' c.esp c.memory (subst AreWords (sym mine) words) fits small) in
    enters_stack ret' other prev c' ret c.registers prev c.esp fits small
      (place ∙ stored c.saved_esp prev _ ∙ push_all_esp vs' c.esp c.memory fits small) ne'
      (Stacked-same vs c.esp m c'.memory fits same stacked) room below apart

-- The registers of a task that has not run: interrupts are on.
abbrev pub fresh_registers : Registers
fresh_registers = record {
  ebp = 0;
  eflags = 514;
  eax = 0;
  ebx = 0;
  ecx = 0;
  edx = 0;
  esi = 0;
  edi = 0;
}

-- The first switch to a task whose stack `task_init` has set up, from another task whose stack lies
-- apart, goes on at the entry of the task, with registers 0, interrupts on, the whole stack free and
-- the task as `current`.
pub switch_context-starts :
    {X : Type 0} (ret' entry : ℕ) (other task : Addr) (s : Procs X) (c : Cpu)
    → other ≢ task
    → entry < 2 ^ 32
    → task + 8192 < 2 ^ 32
    → c.saved_esp task ≡ (set_stack task entry s).esp (rq_of task)
    → SameBetween (set_stack task entry s).memory c.memory (task + 8192 - 44) (task + 8192)
    → 44 ≤ c.esp
    → c.esp < 2 ^ 32
    → (c.esp ≤ task + 8192 - 44) ⊎ (task + 8192 ≤ c.esp - 44)
    → GoesOn (switch_context ret' other task c) entry fresh_registers (task + 8192) task
unfolding set_stack
switch_context-starts ret' entry other task s c ne word_entry small place same room below apart =
    let vs = first_stack entry task in
    let top = task + 8192 in
    let stacked = push_all-Stacked vs top s.memory (omega arith) (omega arith) small in
    enters_stack ret' other task c entry fresh_registers task top (omega arith) small
      (place ∙ stored s.esp (rq_of task) _ ∙ push_all_esp vs top s.memory (omega arith) small) ne
      (Stacked-same vs top (push_all vs top s.memory).1 c.memory (omega arith) same stacked) room
      below apart
