-- ===== src/Cpu/Cycle.antt =====
-- One cycle of the processor and its main loop (cpu.rs).
pub mod Rewind
pub mod Interrupts
use simulatron.Common.{
  ℕ, zero, suc, ◌+◌, ◌-◌, ◌*◌, ◌%◌, ◌^◌, bit_or, Bool, true, false, Option, none, some, ◌==◌,
  if◌then◌else◌,
}
use simulatron.Exec.{
  Exec, Outcome, ok, err, blocked, panic, Done, try_again_error, fatal_error, pure, gets, unwrap,
  critical, modify, mul_u32, ◌>>=◌, ◌>>◌,
}
use simulatron.Platform.{Platform}
use simulatron.Cpu.Values.{word_type, half, word, to_word}
use simulatron.Cpu.State.{Cpu}
use simulatron.Cpu.Memory.{load, push}
use simulatron.Cpu.Blocks.{jump}
use simulatron.Cpu.Latch.{join_thread, try_get_next, wait_for_next}
use simulatron.Cpu.Fetch.{Ending, halts, pauses, continues, fetch_byte}
use simulatron.Cpu.Decode.{execute}

-- `no_action` is `PostCycleAction::None`.
pub data PostCycleAction : Type 0 where
  halt pause no_action : PostCycleAction

-- What one round of `cpu_loop` leads to: another round, with `pausing`; the end of the loop; a
-- wait; or the end of the thread.
pub data Round (D : Type 0) : Type 0 where
  again : Bool → Cpu D → Round D
  stopped waiting : Cpu D → Round D
  dead : Round D

module _ {D : Type 0} ⦃platform : Platform D⦄ where
  open platform use {debug}

  -- `self.interrupts.wait_for_next(self.imr)` or `self.interrupts.try_get_next(self.imr)`
  unfoldable pub poll_interrupt : Bool → Exec (Cpu D) (Option ℕ)
  poll_interrupt pausing = do
    imr ← gets (λ c. c.imr)
    if pausing then (do n ← wait_for_next imr; pure (some n)) else try_get_next imr

  -- The entry to the handler. Its stores and its load must not fail.
  unfoldable pub enter_handler : ℕ → Exec (Cpu D) Done
  enter_handler interrupt = do
    was_kernel ← gets (λ c. c.kernel_mode)
    let old_mode = if was_kernel then 0b1000000000000000 else 0
    modify (λ c. record c { kernel_mode = true })
    old_flags ← gets (λ c. c.flags)
    critical (push (half (bit_or old_flags old_mode)))
    pc ← gets (λ c. c.program_counter)
    critical (push (word pc))
    imr ← gets (λ c. c.imr)
    critical (push (half imr))
    modify (λ c. record c { imr = 0 })
    entry ← mul_u32 debug interrupt 4
    value ← critical (load entry false word_type)
    address ← unwrap (to_word value)
    jump address

  unfoldable pub finish : Ending → Exec (Cpu D) PostCycleAction
  finish halts = pure halt
  finish pauses = pure pause
  finish (continues skip_pause_next) =
      modify (λ c. record c { skip_pause = skip_pause_next }) >> pure no_action

  -- Fetch, decode and execute, and set `skip_pause` where the `match` runs to its end.
  unfoldable pub fetch_and_execute : Exec (Cpu D) PostCycleAction
  unfolding finish
  fetch_and_execute = do opcode ← fetch_byte; ending ← execute opcode; finish ending

  unfoldable pub after_poll : Option ℕ → Exec (Cpu D) PostCycleAction
  after_poll none = fetch_and_execute
  after_poll (some interrupt) =
      if interrupt == join_thread then pure halt else (enter_handler interrupt >> fetch_and_execute)

  unfoldable pub interrupt_fetch_decode_execute : Bool → Exec (Cpu D) PostCycleAction
  unfolding after_poll
  interrupt_fetch_decode_execute pausing = do
    possible_interrupt ← poll_interrupt pausing
    after_poll possible_interrupt

  -- `self.program_counter.wrapping_sub(self.rewind)`
  abbrev pub rewound : Cpu D → Cpu D
  rewound c = record c { program_counter = (c.program_counter + 2 ^ 32 - c.rewind) % 2 ^ 32 }

  -- the arms of `cpu_loop`
  unfoldable pub after_cycle : Outcome (Cpu D) PostCycleAction → Round D
  after_cycle (ok halt c) = stopped c
  after_cycle (ok pause c) = again true c
  after_cycle (ok no_action c) = again false c
  after_cycle (err try_again_error c) = again false (rewound c)
  after_cycle (err fatal_error c) = stopped c
  after_cycle (blocked c) = waiting c
  after_cycle panic = dead

  unfoldable pub loop_body : Bool → Cpu D → Round D
  unfolding after_cycle
  loop_body pausing c = after_cycle (interrupt_fetch_decode_execute pausing c)

  -- The loop, for at most `fuel` rounds.
  unfoldable pub cpu_loop : ℕ → Bool → Cpu D → Round D
  cpu_loop zero pausing c = again pausing c
  cpu_loop (suc fuel) pausing c = elim (loop_body pausing c) [
    | again pausing' c' ↦ cpu_loop fuel pausing' c'
    | stopped c' ↦ stopped c'
    | waiting c' ↦ waiting c'
    | dead ↦ dead
  ]
