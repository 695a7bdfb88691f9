-- ===== src/Cpu/Cycle/Interrupts/Frame.antt =====
-- What the entry to a handler leaves on the kernel's stack (cpu.rs).
use simulatron.Common.{
  ℕ, ◌+◌, ◌-◌, ◌*◌, ◌^◌, ◌<◌, ◌≤◌, ◌≡◌, ap, ◌∙◌, arith, Bool, not, ◌==◌, if◌then◌else◌, bit_and,
  bit_or,
}
use simulatron.Common.Bits.{and_low, and_field, or_fields, or_comm}
use simulatron.Platform.{Platform}
use simulatron.Mmu.Zones.{begin_ram}
use simulatron.Mmu.State.{Mmu}
use simulatron.Mmu.Physical.RoundTrip.{
  with_half, with_word, cells_16, cells_32, cells-with_half, cells-with_word,
}
use simulatron.Cpu.State.{Cpu}

-- the flags on the stack: bit 15 is the old mode
abbrev pub stacked_flags : ℕ → Bool → ℕ
stacked_flags flags kernel = bit_or flags (if kernel then 0b1000000000000000 else 0)

module _ (flags : ℕ) (kernel : Bool) (h : flags < 2 ^ 15) where
  stacked_sum : stacked_flags flags kernel ≡ (if kernel then 1 else 0) * 2 ^ 15 + flags
  stacked_sum =
      or_comm flags _
      ∙ ap (λ (t : ℕ). bit_or t flags) (ground arith)
      ∙ or_fields 15 (if kernel then 1 else 0) flags (omega (arith, h))

  stacked-lt : stacked_flags flags kernel < 2 ^ 16
  stacked-lt = ground (arith, stacked_sum)

  pub stacked_mode : (bit_and (stacked_flags flags kernel) 0b1000000000000000 == 0) ≡ not kernel
  stacked_mode = ground (arith, stacked_sum, and_field 15 1 (stacked_flags flags kernel))

  pub stacked_low : bit_and (stacked_flags flags kernel) 0b0111111111111111 ≡ flags
  stacked_low = ground (arith, stacked_sum, and_low 15 (stacked_flags flags kernel))

-- What the entry leaves on the stack, from its top: the interrupt mask, the program counter and
-- the flags with the mode.
pub record IsFrame {D : Type 0} (c : Cpu D) (m : Mmu D) (sp : ℕ) : Type 0 where
  pub mask : cells_16 m sp ≡ c.imr
  pub counter : cells_32 m (sp + 2) ≡ c.program_counter
  pub state : cells_16 m (sp + 6) ≡ stacked_flags c.flags c.kernel_mode

module _ {D : Type 0} ⦃platform : Platform D⦄ where
  -- the memory after the three pushes
  abbrev pub framed : Cpu D → Mmu D
  framed c =
      with_half
        (with_word (with_half c.mmu (c.kspr - 2) (stacked_flags c.flags c.kernel_mode)) (c.kspr - 6)
          c.program_counter)
        (c.kspr - 8) c.imr

  -- bytes above those written
  cells_32-with_half :
      (m : Mmu D) (a v b : ℕ)
      → begin_ram ≤ a
      → a + 2 ≤ b
      → cells_32 (with_half m a v) b ≡ cells_32 m b
  cells_32-with_half m a v b low h = ground arith

  cells_16-with_half :
      (m : Mmu D) (a v b : ℕ)
      → begin_ram ≤ a
      → a + 2 ≤ b
      → cells_16 (with_half m a v) b ≡ cells_16 m b
  cells_16-with_half m a v b low h = ground arith

  cells_16-with_word :
      (m : Mmu D) (a v b : ℕ)
      → begin_ram ≤ a
      → a + 4 ≤ b
      → cells_16 (with_word m a v) b ≡ cells_16 m b
  cells_16-with_word m a v b low h = ground arith

  module _ (c : Cpu D) (low : begin_ram + 8 ≤ c.kspr) (flags_lt : c.flags < 2 ^ 15)
      (counter_lt : c.program_counter < 2 ^ 32) (imr_lt : c.imr < 2 ^ 16) where
    pub framed-IsFrame : IsFrame c (framed c) (c.kspr - 8)
    framed-IsFrame =
        let m1 : Mmu D = with_half c.mmu (c.kspr - 2) (stacked_flags c.flags c.kernel_mode) in
        let m2 : Mmu D = with_word m1 (c.kspr - 6) c.program_counter in
        let two : c.kspr - 8 + 2 ≡ c.kspr - 6 = omega arith in
        let six : c.kspr - 8 + 6 ≡ c.kspr - 2 = omega arith in
        record {
          mask = cells-with_half m2 (c.kspr - 8) c.imr (omega arith) imr_lt;
          counter =
              cells_32-with_half m2 (c.kspr - 8) c.imr _ (omega arith) (omega arith)
              ∙ ap (cells_32 m2) two
              ∙ cells-with_word m1 (c.kspr - 6) c.program_counter (omega arith) counter_lt;
          state =
              cells_16-with_half m2 (c.kspr - 8) c.imr _ (omega arith) (omega arith)
              ∙ ap (cells_16 m2) six
              ∙ cells_16-with_word m1 (c.kspr - 6) c.program_counter _ (omega arith) (omega arith)
              ∙ cells-with_half c.mmu (c.kspr - 2) _ (omega arith)
                  (stacked-lt c.flags c.kernel_mode flags_lt);
        }
