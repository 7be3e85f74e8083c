-- ===== src/Process/Switch.antt =====
-- __switch_to of source/kernel/sched.c, with the call, the `push %ebx` in front and the `pop %ebx` and
-- `ret` behind it that the compiler adds. Tasks are known by their address here.
pub mod Stacks
pub mod Resumes
use mango_os.Base.{ℕ, List, [], ◌∷◌, update, add32}
use mango_os.Queue.{Addr}
use mango_os.Strings.{Memory, word}
use mango_os.Process.Start.{push_all}

pub record Registers : Type 0 where
  pub ebp : ℕ
  pub eflags : ℕ
  pub eax : ℕ
  pub ebx : ℕ
  pub ecx : ℕ
  pub edx : ℕ
  pub esi : ℕ
  pub edi : ℕ

-- The processor and memory, with the field `esp` of each task and `current`.
pub record Cpu : Type 0 where
  pub registers : Registers
  pub esp : ℕ
  pub memory : Memory
  pub saved_esp : Addr → ℕ
  pub current : Addr

-- What stands on the stack of a task that is not running, from the address it returns to down.
abbrev pub pushed : ℕ → Registers → Addr → List ℕ
pushed ret r current =
    ret ∷ r.ebx ∷ r.ebp ∷ r.eflags ∷ r.eax ∷ r.ebx ∷ r.ecx ∷ r.edx ∷ r.esi ∷ r.edi ∷ current ∷ []

-- The pops, and where the processor goes on.
unfoldable pub pop_all : Cpu → ℕ × Cpu
pop_all c =
    let at : ℕ → ℕ = λ k. word c.memory (add32 c.esp k) in
    (
      at 40,
      record c {
        current = at 0;
        registers = record {
          edi = at 4;
          esi = at 8;
          edx = at 12;
          ecx = at 16;
          eax = at 24;
          eflags = at 28;
          ebp = at 32;
          ebx = at 36;
        };
        esp = add32 c.esp 44;
      },
    )

-- `__switch_to(prev, next)`, called from an instruction in front of `ret`.
unfoldable pub switch_context : ℕ → Addr → Addr → Cpu → ℕ × Cpu
unfolding push_all pop_all
switch_context ret prev next c =
    let (esp', m) = push_all (pushed ret c.registers c.current) c.esp c.memory in
    let saved = update c.saved_esp prev esp' in
    pop_all (record c { memory = m; saved_esp = saved; esp = saved next })
