-- ===== src/Cpu/Decode/Control.antt =====
-- Opcodes 0x00 to 0x05 of the `match` in cpu.rs: HALT, PAUSE, TIMER, USERMODE and IRETURN.
use simulatron.Common.{ℕ, bit_and, true, false, not, List, [], ◌∷◌, ◌++◌, ◌==◌, if◌then◌else◌}
use simulatron.Exec.{Exec, Done, pure, gets, unwrap, modify, on_error, ◌>>=◌, ◌>>◌}
use simulatron.Platform.{Platform}
use simulatron.Cpu.Values.{half_type, word_type, half, word, to_half, to_word}
use simulatron.Cpu.State.{Cpu, privileged}
use simulatron.Cpu.Memory.{push, pop}
use simulatron.Cpu.Blocks.{jump}
use simulatron.Cpu.Fetch.{
  Ending, halts, pauses, continues, case, fetch_byte, fetch_word, register_word,
}

module _ {D : Type 0} ⦃platform : Platform D⦄ where
  -- `send(TimerCommand::SetTimer(milliseconds))`
  unfoldable pub set_timer : ℕ → Exec (Cpu D) Done
  set_timer milliseconds =
      modify (λ c. record c { timer_commands = c.timer_commands ++ milliseconds ∷ [] })

  unfoldable pub pause : Exec (Cpu D) Ending
  pause = do
    privileged
    skip ← gets (λ c. c.skip_pause)
    pure (if not skip then pauses else continues false)

  unfoldable pub usermode : Exec (Cpu D) Done
  usermode = do
    privileged
    value ← pop word_type
    address ← unwrap (to_word value)
    jump address
    modify (λ c. record c { flags = 0 })
    modify (λ c. record c { kernel_mode = false })

  -- A pop that fails puts back what was popped before it.
  unfoldable pub ireturn : Exec (Cpu D) Done
  ireturn = do
    privileged
    imr_value ← pop half_type
    imr ← unwrap (to_half imr_value)
    pc_value ← on_error (pop word_type) (push (half imr))
    pc ← unwrap (to_word pc_value)
    flags_value ← on_error (pop half_type) (push (word pc) >> push (half imr))
    flags ← unwrap (to_half flags_value)
    modify
        (λ c. if bit_and flags 0b1000000000000000 == 0 then record c { kernel_mode = false } else c)
    modify (λ c. record c { imr = imr })
    jump pc
    modify (λ c. record c { flags = bit_and flags 0b0111111111111111 })

  -- HALT, PAUSE, TIMER, USERMODE and IRETURN
  unfoldable pub control : List (ℕ × Exec (Cpu D) Ending)
  control =
      (0x00, privileged >> pure halts)
      ∷ (0x01, pause)
      ∷ case 0x02 (do privileged; milliseconds ← fetch_word; set_timer milliseconds)
      ∷ case 0x03 (do
        privileged
        reg_ref ← fetch_byte
        milliseconds ← register_word reg_ref
        set_timer milliseconds)
      ∷ case 0x04 usermode
      ∷ (0x05, ireturn >> pure (continues true))
      ∷ []
