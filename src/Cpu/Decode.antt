-- ===== src/Cpu/Decode.antt =====
-- The `match` on the opcode in `interrupt_fetch_decode_execute` (cpu.rs).
pub mod Control
pub mod Moves
pub mod Blocks
pub mod Arithmetic
pub mod Shifts
pub mod Jumps
pub mod Calls
use simulatron.Common.{ℕ}
use simulatron.Exec.{Exec}
use simulatron.Platform.{Platform}
use simulatron.Cpu.State.{Cpu, illegal_operation, interrupt_and_retry}
use simulatron.Cpu.Fetch.{Ending, select}
use Control.{control}
use Moves.{moves}
use Blocks.{block_copies, block_sets, block_compares}
use Arithmetic.{sums, products, bitwise}
use Shifts.{shifts, carry_rotations}
use Jumps.{jumps_and_compares, conditional_jumps}
use Calls.{calls}

module _ {D : Type 0} ⦃platform : Platform D⦄ where
  unfoldable pub execute : ℕ → Exec (Cpu D) Ending
  unfolding select
  execute opcode = select opcode control (
      select opcode moves (
        select opcode block_copies (
          select opcode block_sets (
            select opcode sums (
              select opcode products (
                select opcode bitwise (
                  select opcode shifts (
                    select opcode carry_rotations (
                      select opcode jumps_and_compares (
                        select opcode block_compares (
                          select opcode conditional_jumps
                            (select opcode calls illegal_operation))))))))))))
