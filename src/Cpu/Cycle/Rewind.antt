-- ===== src/Cpu/Cycle/Rewind.antt =====
-- Where the processor resumes after an instruction that fails (cpu.rs).
use simulatron.Common.{
  ℕ, ◌+◌, ◌-◌, ◌%◌, ◌^◌, ◌<◌, ◌≡◌, refl, arith, Bool, true, false, none, ◌++◌, ◌∷◌, [],
}
use simulatron.Exec.{ok, err, try_again_error, pure, raise, gets, modify, unwrap, ◌>>=◌, ◌>>◌}
use simulatron.Platform.{Platform}
use simulatron.Mmu.Zones.{interrupt_illegal_operation}
use simulatron.Mmu.State.{Mmu, send}
use simulatron.Mmu.Physical.RoundTrip.{add_u32_fits}
use simulatron.Cpu.Values.{byte_type, byte, size_in_bytes, to_byte}
use simulatron.Cpu.State.{Cpu, with_mmu, send_interrupt, interrupt_and_retry}
use simulatron.Cpu.Memory.{load}
use simulatron.Cpu.Fetch.{fetch_byte, fetch_variable_size, select}
use simulatron.Cpu.Decode.{execute}
use simulatron.Cpu.Decode.Control.{control}
use simulatron.Cpu.Decode.Moves.{moves}
use simulatron.Cpu.Decode.Blocks.{block_copies, block_sets, block_compares}
use simulatron.Cpu.Decode.Arithmetic.{sums, products, bitwise}
use simulatron.Cpu.Decode.Shifts.{shifts, carry_rotations}
use simulatron.Cpu.Decode.Jumps.{jumps_and_compares, conditional_jumps}
use simulatron.Cpu.Decode.Calls.{calls}
use simulatron.Cpu.Cycle.{
  again, poll_interrupt, fetch_and_execute, after_poll, interrupt_fetch_decode_execute, after_cycle,
  loop_body,
}

module _ {D : Type 0} ⦃platform : Platform D⦄ (c : Cpu D) where
  open platform use {debug}

  abbrev fetched : Cpu D
  fetched = record c { program_counter = (c.program_counter + 1) % 2 ^ 32; rewind = c.rewind + 1 }

  abbrev interrupted : Mmu D → Mmu D
  interrupted m = record m {
    interrupt_channel = m.interrupt_channel ++ interrupt_illegal_operation ∷ [];
  }

  fetch_ok :
      (opcode : ℕ)
      → load c.program_counter true byte_type c ≡ ok (byte opcode) c
      → c.rewind + 1 < 2 ^ 32
      → fetch_byte c ≡ ok opcode fetched
  unfolding fetch_byte fetch_variable_size gets modify pure unwrap to_byte size_in_bytes ◌>>=◌ ◌>>◌
  fetch_ok opcode e h = rw (e, add_u32_fits debug _ c.rewind 1 h) refl

  unlisted : execute 0xFF fetched ≡ err try_again_error (record fetched { mmu = interrupted c.mmu })
  unfolding execute select control moves block_copies block_sets block_compares sums products
      bitwise shifts carry_rotations jumps_and_compares conditional_jumps calls interrupt_and_retry
      send_interrupt with_mmu send modify raise ◌>>=◌ ◌>>◌
  unlisted = refl

  -- Where the byte at the program counter can be fetched, is 0xFF, which is no instruction, and no
  -- interrupt is taken, a round of the main loop sends the interrupt for an illegal operation and
  -- goes on at the program counter less the value that `rewind` had before the round, modulo
  -- 2 ^ 32, with `rewind` greater by one. So it resumes at the instruction that failed only if
  -- `rewind` was 0.
  pub loop_body-rewind :
      (pausing : Bool)
      → c.program_counter < 2 ^ 32
      → c.rewind + 1 < 2 ^ 32
      → poll_interrupt pausing c ≡ ok none c
      → load c.program_counter true byte_type c ≡ ok (byte 0xFF) c
      → loop_body pausing c
        ≡ again false (record c {
          program_counter = (c.program_counter + (2 ^ 32 - c.rewind)) % 2 ^ 32;
          rewind = c.rewind + 1;
          mmu = interrupted c.mmu;
        })
  unfolding loop_body interrupt_fetch_decode_execute fetch_and_execute after_poll after_cycle ◌>>=◌
  loop_body-rewind pausing pc_lt rewind_lt polled e =
      let back : ((c.program_counter + 1) % 2 ^ 32 + 2 ^ 32 - (c.rewind + 1)) % 2 ^ 32
          ≡ (c.program_counter + (2 ^ 32 - c.rewind)) % 2 ^ 32 =
        omega arith in
      rw (polled, fetch_ok 0xFF e rewind_lt, unlisted, back) refl
