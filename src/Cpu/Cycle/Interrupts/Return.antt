-- ===== src/Cpu/Cycle/Interrupts/Return.antt =====
-- IRETURN after the entry to a handler (cpu.rs).
use simulatron.Common.{
  ℕ, ◌+◌, ◌^◌, ◌<◌, ◌≤◌, ◌≡◌, refl, ap, ◌∙◌, arith, Bool, true, false, not, ◌==◌, if◌then◌else◌,
  bit_and,
}
use simulatron.Exec.{ok, gets, modify, pure, unwrap, undoing, and_then-ok, on_error, ◌>>=◌, ◌>>◌}
use simulatron.Platform.{Platform}
use simulatron.Mmu.Zones.{begin_ram}
use simulatron.Mmu.Physical.RoundTrip.{cells_16, cells_32}
use simulatron.Cpu.Values.{half, word, to_half, to_word}
use simulatron.Cpu.State.{Cpu, privileged}
use simulatron.Cpu.Memory.{push}
use simulatron.Cpu.Memory.Stack.{pop_half, pop_word}
use simulatron.Cpu.Blocks.{jump}
use simulatron.Cpu.Decode.Control.{ireturn}
use simulatron.Cpu.Cycle.Interrupts.Frame.{stacked_flags, stacked_mode, stacked_low, IsFrame}

module _ {D : Type 0} ⦃platform : Platform D⦄ where
  privileged_ok : (c : Cpu D) → c.kernel_mode ≡ true → privileged c ≡ ok tt c
  unfolding privileged pure
  privileged_ok c kernel = rw kernel refl

  restored :
      (c : Cpu D)
      → c.kernel_mode ≡ true
      → (b : Bool)
      → (if b then record c { kernel_mode = false } else c) ≡ record c { kernel_mode = not b }
  restored c kernel true = refl
  restored c kernel false = ap (λ k. record c { kernel_mode = k }) kernel

  ireturn_lem :
      (c : Cpu D) (mask counter state : ℕ)
      → c.kernel_mode ≡ true
      → begin_ram ≤ c.kspr
      → c.kspr + 8 < 2 ^ 32
      → cells_16 c.mmu c.kspr ≡ mask
      → cells_32 c.mmu (c.kspr + 2) ≡ counter
      → cells_16 c.mmu (c.kspr + 6) ≡ state
      → ireturn c
        ≡ ok tt (record c {
          kspr = c.kspr + 8;
          imr = mask;
          program_counter = counter;
          flags = bit_and state 0b0111111111111111;
          kernel_mode = not (bit_and state 0b1000000000000000 == 0);
        })
  unfolding ireturn privileged gets modify pure unwrap on_error jump to_word to_half ◌>>=◌ ◌>>◌
  ireturn_lem c mask counter state kernel low high e0 e2 e6 =
      let c1 : Cpu D = record c { kspr = c.kspr + 2 } in
      let c2 : Cpu D = record c { kspr = c.kspr + 6 } in
      let c3 : Cpu D = record c { kspr = c.kspr + 8 } in
      and_then-ok _ (privileged_ok c kernel)
      ∙ and_then-ok _ (pop_half c kernel (c.kspr + 2) mask low refl (omega arith) e0)
      ∙ and_then-ok _ (
          ap (λ o. undoing o (push (half mask)))
            (pop_word c1 kernel (c.kspr + 6) counter (omega arith) (omega arith) (omega arith) e2))
      ∙ and_then-ok _ (
          ap (λ o. undoing o (push (word counter) >> push (half mask)))
            (pop_half c2 kernel (c.kspr + 8) state (omega arith) (omega arith) (omega arith) e6))
      ∙ ap
          (λ (c' : Cpu D). ok tt (record c' {
            imr = mask;
            program_counter = counter;
            flags = bit_and state 0b0111111111111111;
          }))
          (restored c3 kernel (bit_and state 0b1000000000000000 == 0))

  saved_mode :
      (c : Cpu D)
      → c.flags < 2 ^ 15
      → not (bit_and (stacked_flags c.flags c.kernel_mode) 0b1000000000000000 == 0) ≡ c.kernel_mode
  saved_mode c h = rw (stacked_mode c.flags c.kernel_mode h) (ground arith)

  -- In kernel mode, where the stack in RAM holds what the entry to a handler saved of a state `c`
  -- whose flags fit 15 bits, IRETURN succeeds: it gives back the mask, the program counter, the
  -- flags and the mode of `c`, removes the eight bytes, and changes nothing else.
  pub ireturn-IsFrame :
      (c later : Cpu D)
      → later.kernel_mode ≡ true
      → begin_ram ≤ later.kspr
      → later.kspr + 8 < 2 ^ 32
      → c.flags < 2 ^ 15
      → IsFrame c later.mmu later.kspr
      → ireturn later
        ≡ ok tt (record later {
          kspr = later.kspr + 8;
          imr = c.imr;
          program_counter = c.program_counter;
          flags = c.flags;
          kernel_mode = c.kernel_mode;
        })
  ireturn-IsFrame c later kernel low high flags_lt frame =
      let returned : ℕ → Bool → Cpu D = λ flags mode. record later {
        kspr = later.kspr + 8;
        imr = c.imr;
        program_counter = c.program_counter;
        flags = flags;
        kernel_mode = mode;
      } in
      ireturn_lem later c.imr c.program_counter (stacked_flags c.flags c.kernel_mode) kernel low
        high frame.mask frame.counter frame.state
      ∙ ap
          (λ b.
            ok tt (returned (bit_and (stacked_flags c.flags c.kernel_mode) 0b0111111111111111) b))
          (saved_mode c flags_lt)
      ∙ ap (λ flags. ok tt (returned flags c.kernel_mode))
          (stacked_low c.flags c.kernel_mode flags_lt)
