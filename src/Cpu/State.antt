-- ===== src/Cpu/State.antt =====
-- The processor's state (`CPUInternal` in cpu.rs) and the ways in which an instruction gives up.
use simulatron.Common.{ℕ, Bool, true, false, List, [], not, replicate, if◌then◌else◌}
use simulatron.Exec.{
  Exec, Outcome, ok, err, blocked, panic, Done, try_again_error, pure, raise, ◌>>◌,
}
use simulatron.Mmu.Zones.{interrupt_illegal_operation}
use simulatron.Mmu.State.{Mmu, send}

-- `timer_commands` are the intervals sent to the timer's thread. The interrupt latch is `latched`
-- with the channel of the memory unit. An `f32` register is its bit pattern.
pub record Cpu (D : Type 0) : Type 0 where
  pub timer_commands : List ℕ
  pub mmu : Mmu D
  pub latched : List Bool
  pub r : List ℕ
  pub f : List ℕ
  pub flags : ℕ
  pub uspr : ℕ
  pub kspr : ℕ
  pub pdpr : ℕ
  pub imr : ℕ
  pub program_counter : ℕ
  pub kernel_mode : Bool
  pub rewind : ℕ
  pub skip_pause : Bool

unfoldable pub new : {D : Type 0} → Mmu D → Cpu D
unfolding replicate
new mmu = record {
  timer_commands = [];
  mmu = mmu;
  latched = replicate 8 false;
  r = replicate 8 0;
  f = replicate 8 0;
  flags = 0;
  uspr = 0;
  kspr = 0;
  pdpr = 0;
  imr = 0;
  program_counter = 64;
  kernel_mode = true;
  rewind = 0;
  skip_pause = false;
}

abbrev pub in_cpu : {D A : Type 0} → Cpu D → Outcome (Mmu D) A → Outcome (Cpu D) A
in_cpu c (ok a mmu) = ok a (record c { mmu = mmu })
in_cpu c (err e mmu) = err e (record c { mmu = mmu })
in_cpu c (blocked mmu) = blocked (record c { mmu = mmu })
in_cpu c panic = panic

-- A call on `self.mmu`.
unfoldable pub with_mmu : {D A : Type 0} → Exec (Mmu D) A → Exec (Cpu D) A
with_mmu m c = in_cpu c (m c.mmu)

unfoldable pub send_interrupt : {D : Type 0} → ℕ → Exec (Cpu D) Done
unfolding with_mmu send
send_interrupt n = with_mmu (send n)

-- `self.interrupt_tx.send(n).unwrap(); return Err(CPUError::TryAgainError)`
unfoldable pub interrupt_and_retry : {D A : Type 0} → ℕ → Exec (Cpu D) A
unfolding send_interrupt raise ◌>>◌
interrupt_and_retry n = send_interrupt n >> raise try_again_error

abbrev pub illegal_operation : {D A : Type 0} → Exec (Cpu D) A
illegal_operation = interrupt_and_retry interrupt_illegal_operation

-- the macro `privileged!`
unfoldable pub privileged : {D : Type 0} → Exec (Cpu D) Done
unfolding interrupt_and_retry pure
privileged c = if not c.kernel_mode then illegal_operation c else pure tt c
