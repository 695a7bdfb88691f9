-- ===== src/Cpu/Privilege/Decode.antt =====
-- Every opcode of the `match` in cpu.rs, in user mode.
use simulatron.Common.{ℕ, List, [], ◌∷◌, ◌==◌, All}
use simulatron.Exec.{Exec, Done}
use simulatron.Exec.Keeps.{Keeps-if}
use simulatron.Platform.{Platform}
use simulatron.Cpu.State.{Cpu}
use simulatron.Cpu.Alu.{
  instruction_add, instruction_addcarry, instruction_sub, instruction_subborrow, instruction_mult,
  instruction_sdiv, instruction_udiv, instruction_srem, instruction_urem, instruction_and,
  instruction_or, instruction_xor,
}
use simulatron.Cpu.Shifts.{
  instruction_lshift, instruction_srshift, instruction_urshift, instruction_lrot, instruction_rrot,
  instruction_lrotcarry, instruction_rrotcarry,
}
use simulatron.Cpu.Flags.{Condition}
use simulatron.Cpu.Fetch.{Ending, select, done}
use simulatron.Cpu.Decode.{execute}
use simulatron.Cpu.Decode.Control.{pause, usermode, ireturn, control}
use simulatron.Cpu.Decode.Moves.{moves}
use simulatron.Cpu.Decode.Blocks.{block_copies, block_sets, block_compares}
use simulatron.Cpu.Decode.Arithmetic.{sums, products, bitwise}
use simulatron.Cpu.Decode.Shifts.{shifts, carry_rotations}
use simulatron.Cpu.Decode.Jumps.{
  jump_if, cond_jump_literal, cond_jump_reference, jumps_and_compares, conditional_jumps,
}
use simulatron.Cpu.Decode.Calls.{return_from_call, convert, calls}
use simulatron.Cpu.Privilege.Base.{Confined}
use simulatron.Cpu.Privilege.Instructions.{instruction_rules}

module _ {D : Type 0} ⦃platform : Platform D⦄ (kspr pdpr imr : ℕ) where
  abbrev C : {A : Type 0} → Exec (Cpu D) A → Type 0
  C m = Confined kspr pdpr imr m

  abbrev Arms : List (ℕ × Exec (Cpu D) Ending) → Type 0
  Arms = All λ arm. C arm.1

  select-Confined :
      (opcode : ℕ) (arms : List (ℕ × Exec (Cpu D) Ending)) (default : Exec (Cpu D) Ending)
      → Arms arms
      → C default
      → C (select opcode arms default)
  unfolding select
  select-Confined opcode [] default ha hd = hd
  select-Confined opcode ((k, arm) ∷ arms) default ha hd =
      Keeps-if (opcode == k) _ _ ha.0 (select-Confined opcode arms default ha.1 hd)

  done-Confined : (body : Exec (Cpu D) Done) → C body → C (done body)
  unfolding done
  done-Confined body h = search instruction_rules

ruleset arm_rules = (instruction_rules, done-Confined)

module _ (D : Type 0) ⦃platform : Platform D⦄ (kspr pdpr imr : ℕ) where
  abbrev ArmsOf : List (ℕ × Exec (Cpu D) Ending) → Type 0
  ArmsOf arms = Arms kspr pdpr imr arms

  control-Confined : ArmsOf control
  unfolding control pause usermode ireturn
  control-Confined = search arm_rules depth 12

  moves-Confined : ArmsOf moves
  unfolding moves
  moves-Confined = search arm_rules depth 12

  block_copies-Confined : ArmsOf block_copies
  unfolding block_copies
  block_copies-Confined = search arm_rules depth 12

  block_sets-Confined : ArmsOf block_sets
  unfolding block_sets
  block_sets-Confined = search arm_rules depth 12

  block_compares-Confined : ArmsOf block_compares
  unfolding block_compares
  block_compares-Confined = search arm_rules depth 12

  sums-Confined : ArmsOf sums
  unfolding sums instruction_add instruction_addcarry instruction_sub instruction_subborrow
  sums-Confined = search arm_rules depth 12

  products-Confined : ArmsOf products
  unfolding products instruction_mult instruction_sdiv instruction_udiv instruction_srem
      instruction_urem
  products-Confined = search arm_rules depth 12

  bitwise-Confined : ArmsOf bitwise
  unfolding bitwise instruction_and instruction_or instruction_xor
  bitwise-Confined = search arm_rules depth 12

  shifts-Confined : ArmsOf shifts
  unfolding shifts instruction_lshift instruction_srshift instruction_urshift instruction_lrot
      instruction_rrot
  shifts-Confined = search arm_rules depth 12

  carry_rotations-Confined : ArmsOf carry_rotations
  unfolding carry_rotations instruction_lrotcarry instruction_rrotcarry
  carry_rotations-Confined = search arm_rules depth 12

  jump_if-Confined :
      (condition : Condition) (address : ℕ)
      → Confined {D = D} kspr pdpr imr (jump_if condition address)
  unfolding jump_if
  jump_if-Confined condition address = search arm_rules

  jumps_and_compares-Confined : ArmsOf jumps_and_compares
  unfolding jumps_and_compares
  jumps_and_compares-Confined = search arm_rules depth 12

  conditional_jumps-Confined : ArmsOf conditional_jumps
  unfolding conditional_jumps cond_jump_literal cond_jump_reference
  conditional_jumps-Confined = search (arm_rules, jump_if-Confined) depth 26

  calls-Confined : ArmsOf calls
  unfolding calls return_from_call convert
  calls-Confined = search arm_rules depth 12

  pub execute-Confined : (opcode : ℕ) → Confined {D = D} kspr pdpr imr (execute opcode)
  unfolding execute
  execute-Confined opcode =
      search
        (
          arm_rules, select-Confined, control-Confined, moves-Confined, block_copies-Confined,
          block_sets-Confined, block_compares-Confined, sums-Confined, products-Confined,
          bitwise-Confined, shifts-Confined, carry_rotations-Confined, jumps_and_compares-Confined,
          conditional_jumps-Confined, calls-Confined,
        )
        depth 16
