-- ===== src/Cpu/Privilege/Base.antt =====
-- The parts of instructions in user mode: registers, memory and the stack (cpu.rs).
use simulatron.Common.{ℕ, ◌≡◌, Bool, false, arith}
use simulatron.Exec.{Exec, Outcome, ok, err, blocked, panic, modify, ◌>>◌}
use simulatron.Exec.Keeps.{Keeps, keeps_rules, Keeps-modify, Keeps-bind, Keeps-then, Leaves}
use simulatron.Platform.{Platform}
use simulatron.Mmu.State.{Mmu, send}
use simulatron.Cpu.Values.{
  ValueType, byte_type, half_type, word_type, float_type, TypedValue, byte, half, word, float,
}
use simulatron.Cpu.State.{Cpu, with_mmu, in_cpu, send_interrupt, interrupt_and_retry, privileged}
use simulatron.Cpu.Registers.{
  reg_ref_type, get_r, get_f, set_r, set_f, read_from_register, write_to_register,
}
use simulatron.Cpu.Alu.{set_flags}
use simulatron.Cpu.Blocks.{jump}
use simulatron.Cpu.Memory.{by_mode, load, store, set_stack_pointer, push, pop}

-- User mode, with the given privileged registers.
pub record IsUser {D : Type 0} (kspr pdpr imr : ℕ) (c : Cpu D) : Type 0 where
  pub user : c.kernel_mode ≡ false
  pub same_kspr : c.kspr ≡ kspr
  pub same_pdpr : c.pdpr ≡ pdpr
  pub same_imr : c.imr ≡ imr

module _ {D : Type 0} (kspr pdpr imr : ℕ) where
  -- The code leaves user mode in place and the privileged registers as they were.
  abbrev pub Confined : {A : Type 0} → Exec (Cpu D) A → Type 0
  Confined m = Keeps (IsUser kspr pdpr imr) m

  in_cpu-IsUser :
      {A : Type 0} (c : Cpu D) (o : Outcome (Mmu D) A)
      → IsUser kspr pdpr imr c
      → Leaves (IsUser kspr pdpr imr) (in_cpu c o)
  in_cpu-IsUser c (ok a mmu) h = ground arith
  in_cpu-IsUser c (err e mmu) h = ground arith
  in_cpu-IsUser c (blocked mmu) h = ground arith
  in_cpu-IsUser c panic h = tt

  with_mmu-Confined : {A : Type 0} (m : Exec (Mmu D) A) → Confined (with_mmu m)
  unfolding with_mmu
  with_mmu-Confined m = record { at = λ c h. in_cpu-IsUser c (m c.mmu) h }

  -- A privileged action ends before anything changes but the interrupt channel.
  pub privileged-Confined : {B : Type 0} (k : Exec (Cpu D) B) → Confined (privileged >> k)
  unfolding privileged interrupt_and_retry ◌>>◌
  privileged-Confined k = record { at = λ c h. ground arith }

  pub interrupt_and_retry-Confined : {A : Type 0} (n : ℕ) → Confined (interrupt_and_retry {A = A} n)
  unfolding interrupt_and_retry send_interrupt
  interrupt_and_retry-Confined n = search (keeps_rules, with_mmu-Confined)

  pub send_interrupt-Confined : (n : ℕ) → Confined (send_interrupt n)
  unfolding send_interrupt
  send_interrupt-Confined n = with_mmu-Confined (send n)

  ruleset base_rules = (keeps_rules, interrupt_and_retry-Confined, with_mmu-Confined)

  pub reg_ref_type-Confined : (reg : ℕ) → Confined (reg_ref_type reg)
  unfolding reg_ref_type
  reg_ref_type-Confined reg = search base_rules depth 12

  get_r-Confined : (i : ℕ) → Confined (get_r i)
  unfolding get_r
  get_r-Confined i = search base_rules

  get_f-Confined : (i : ℕ) → Confined (get_f i)
  unfolding get_f
  get_f-Confined i = search base_rules

  set_r-Confined : (i v : ℕ) → Confined (set_r i v)
  unfolding set_r
  set_r-Confined i v = Keeps-bind _ _ (get_r-Confined i) λ _. Keeps-modify _ λ c h. ground arith

  set_f-Confined : (i v : ℕ) → Confined (set_f i v)
  unfolding set_f
  set_f-Confined i v = Keeps-bind _ _ (get_f-Confined i) λ _. Keeps-modify _ λ c h. ground arith

  pub set_flags-Confined : (v : ℕ) → Confined (set_flags v)
  unfolding set_flags
  set_flags-Confined v = Keeps-modify _ λ c h. ground arith

  pub jump-Confined : ⦃platform : Platform D⦄ → (v : ℕ) → Confined (jump v)
  unfolding jump
  jump-Confined v = Keeps-modify _ λ c h. ground arith

  write_flags-Confined : (v : ℕ) → Confined (modify λ (c : Cpu D). record c { flags = v })
  write_flags-Confined v = Keeps-modify _ λ c h. ground arith

  write_uspr-Confined : (v : ℕ) → Confined (modify λ (c : Cpu D). record c { uspr = v })
  write_uspr-Confined v = Keeps-modify _ λ c h. ground arith

  ruleset register_rules = (
    base_rules, get_r-Confined, get_f-Confined, set_r-Confined, set_f-Confined, privileged-Confined,
    write_flags-Confined, write_uspr-Confined,
  )

  pub read_from_register-Confined : (reg : ℕ) → Confined (read_from_register reg)
  unfolding read_from_register
  read_from_register-Confined reg = search register_rules depth 14

  pub write_to_register-Confined :
      (reg : ℕ) (value : TypedValue) → Confined (write_to_register reg value)
  unfolding write_to_register
  write_to_register-Confined reg (byte b) = search register_rules depth 14
  write_to_register-Confined reg (half h) = search register_rules depth 14
  write_to_register-Confined reg (word w) = search register_rules depth 14
  write_to_register-Confined reg (float f) = search register_rules depth 14

  pub by_mode-Confined :
      ⦃platform : Platform D⦄
      → {A : Type 0} (physical : Exec (Mmu D) A) (virtual : ℕ → Exec (Mmu D) A)
      → Confined (by_mode physical virtual)
  unfolding by_mode
  by_mode-Confined physical virtual = search base_rules

  pub load-Confined :
      ⦃platform : Platform D⦄
      → (address : ℕ) (is_fetch : Bool) (t : ValueType) → Confined (load address is_fetch t)
  unfolding load
  load-Confined address is_fetch byte_type = search (base_rules, by_mode-Confined)
  load-Confined address is_fetch half_type = search (base_rules, by_mode-Confined)
  load-Confined address is_fetch word_type = search (base_rules, by_mode-Confined)
  load-Confined address is_fetch float_type = search (base_rules, by_mode-Confined)

  pub store-Confined :
      ⦃platform : Platform D⦄ → (address : ℕ) (value : TypedValue) → Confined (store address value)
  unfolding store
  store-Confined address (byte b) = by_mode-Confined _ _
  store-Confined address (half h) = by_mode-Confined _ _
  store-Confined address (word w) = by_mode-Confined _ _
  store-Confined address (float f) = by_mode-Confined _ _

  set_stack_pointer-Confined : ⦃platform : Platform D⦄ → (v : ℕ) → Confined (set_stack_pointer v)
  unfolding set_stack_pointer
  set_stack_pointer-Confined v = Keeps-modify _ λ c h. ground arith

  pub push-Confined : ⦃platform : Platform D⦄ → (value : TypedValue) → Confined (push value)
  unfolding push
  push-Confined value = search (base_rules, set_stack_pointer-Confined, store-Confined)

  pub pop-Confined : ⦃platform : Platform D⦄ → (t : ValueType) → Confined (pop t)
  unfolding pop
  pop-Confined t = search (base_rules, set_stack_pointer-Confined, load-Confined) depth 8

  pub ruleset confined_rules = (
    keeps_rules, interrupt_and_retry-Confined, send_interrupt-Confined, reg_ref_type-Confined,
    set_flags-Confined, jump-Confined, read_from_register-Confined, write_to_register-Confined,
    by_mode-Confined, load-Confined, store-Confined, push-Confined, pop-Confined,
    privileged-Confined,
  )
