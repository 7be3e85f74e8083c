-- ===== src/Tests/Switches.antt =====
-- Task 1 is left for task 2 and switched to again; and a task at 0x300000 runs for the first time.
use mango_os.Base.{ℕ, refl, inl, arith}
use mango_os.Process.{Procs}
use mango_os.Process.Start.{set_stack}
use mango_os.Process.Switch.{Registers, Cpu, switch_context}
use mango_os.Process.Switch.Resumes.{
  GoesOn, fresh_registers, switch_context-resumes, switch_context-starts,
}
use mango_os.Tests.Kernels.{shop}
use mango_os.Tests.Processes.{family}

abbrev registers : Registers
registers = record {
  ebp = 0x9100;
  eflags = 514;
  eax = 1;
  ebx = 2;
  ecx = 3;
  edx = 4;
  esi = 5;
  edi = 6;
}

abbrev first : Cpu
first = record {
  registers = registers;
  esp = 0x9000;
  memory = λ a. 0;
  saved_esp = λ a. 0x5000;
  current = 1;
}

abbrev second : Cpu
unfolding switch_context
second = (switch_context 0x100 1 2 first).1

switch_context-resumes_example : GoesOn (switch_context 0x200 2 1 second) 0x100 registers 0x9000 1
unfolding second switch_context
switch_context-resumes_example =
    switch_context-resumes 0x100 0x200 1 2 2 first second refl (λ e. ground arith)
      (λ e. ground arith) (omega arith) (omega arith) (omega arith) refl (λ a lo hi. refl)
      (omega arith) (omega arith) (inl (omega arith))

abbrev making : Procs ℕ
making = family 0 (λ a. 0) shop

abbrev made : Cpu
unfolding set_stack
made = record first {
  memory = (set_stack 0x300000 0x1234 making).memory;
  saved_esp = λ a. 0x301fd4;
}

switch_context-starts_example :
    GoesOn (switch_context 0x200 1 0x300000 made) 0x1234 fresh_registers 0x302000 0x300000
unfolding set_stack made
switch_context-starts_example =
    switch_context-starts 0x200 0x1234 1 0x300000 making made (λ e. ground arith) (omega arith)
      (omega arith) refl (λ a lo hi. refl) (omega arith) (omega arith) (inl (omega arith))
