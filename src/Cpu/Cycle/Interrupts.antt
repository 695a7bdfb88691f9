-- ===== src/Cpu/Cycle/Interrupts.antt =====
-- The entry to an interrupt handler (cpu.rs).
pub mod Frame
pub mod Return
use simulatron.Common.{
  ℕ, ◌+◌, ◌-◌, ◌*◌, ◌/◌, ◌%◌, ◌^◌, ◌<◌, ◌≤◌, ◌≡◌, refl, ap, ◌∙◌, arith, Bool, true, false, not,
  ◌==◌, if◌then◌else◌, bit_and, bit_or, List, Option, none, some, get_elem?, get_elem?-some, length,
}
use simulatron.Common.Bits.{and_low, and_field, or_fields, or_comm}
use simulatron.Exec.{
  ok, gets, modify, pure, critical, unwrap, fatally, and_then, undoing, and_then-ok, mul_u32,
  on_error, ◌>>=◌, ◌>>◌,
}
use simulatron.Platform.{Platform}
use simulatron.Ram.Eager
use simulatron.Mmu.Zones.{begin_ram}
use simulatron.Mmu.State.{Mmu}
use simulatron.Mmu.Physical.{from_be_bytes_32, load_physical_8, load_physical_32, store_physical_8}
use simulatron.Mmu.Physical.RoundTrip.{
  with_half, with_word, cells_16, cells_32, add_u32_fits, cells-with_half, cells-with_word,
}
use simulatron.Cpu.Values.{half_type, word_type, half, word, to_half, to_word}
use simulatron.Cpu.State.{Cpu, with_mmu, in_cpu, privileged}
use simulatron.Cpu.Memory.{by_mode, load, push, pop}
use simulatron.Cpu.Memory.Stack.{push_half, push_word, pop_half, pop_word}
use simulatron.Cpu.Blocks.{jump}
use simulatron.Cpu.Decode.Control.{ireturn}
use simulatron.Cpu.Cycle.{enter_handler}
use simulatron.Cpu.Cycle.Interrupts.Frame.{stacked_flags, IsFrame, framed, framed-IsFrame}

-- the interrupt vector's entry for an interrupt
abbrev byte_at : List ℕ → ℕ → ℕ
byte_at bytes i = elim (get_elem? bytes i) [ none ↦ 0 | some b ↦ b ]

abbrev pub handler : {D : Type 0} → Mmu D → ℕ → ℕ
handler m n =
    from_be_bytes_32 (byte_at m.interrupt_vector (n * 4)) (byte_at m.interrupt_vector (n * 4 + 1))
      (byte_at m.interrupt_vector (n * 4 + 2)) (byte_at m.interrupt_vector (n * 4 + 3))

module _ {D : Type 0} ⦃platform : Platform D⦄ where
  open platform use {debug}

  load_vector_8 :
      (m : Mmu D) (i : ℕ)
      → length m.interrupt_vector ≡ 32
      → i < 32
      → load_physical_8 i m ≡ ok (byte_at m.interrupt_vector i) m
  unfolding load_physical_8
  load_vector_8 m i l h = ground (arith, get_elem?-some m.interrupt_vector i)

  load_vector :
      (m : Mmu D) (n : ℕ)
      → length m.interrupt_vector ≡ 32
      → n < 8
      → load_physical_32 (n * 4) m ≡ ok (handler m n) m
  unfolding load_physical_32 ◌>>=◌ pure
  load_vector m n l h =
      rw
        (
          load_vector_8 m (n * 4) l (omega arith),
          add_u32_fits debug _ (n * 4) 1 (omega arith),
          load_vector_8 m (n * 4 + 1) l (omega arith),
          add_u32_fits debug _ (n * 4) 2 (omega arith),
          load_vector_8 m (n * 4 + 2) l (omega arith),
          add_u32_fits debug _ (n * 4) 3 (omega arith),
          load_vector_8 m (n * 4 + 3) l (omega arith),
        )
        refl

module _ {D : Type 0} ⦃platform : Platform D⦄ where
  vector_entry : (debug : Bool) (c : Cpu D) (n : ℕ) → n < 8 → mul_u32 debug n 4 c ≡ ok (n * 4) c
  unfolding mul_u32
  vector_entry debug c n h = ground arith

  load_kernel :
      (c : Cpu D) (n : ℕ)
      → c.kernel_mode ≡ true
      → length c.mmu.interrupt_vector ≡ 32
      → n < 8
      → load (n * 4) false word_type c ≡ ok (word (handler c.mmu n)) c
  unfolding load by_mode with_mmu gets pure ◌>>=◌
  load_kernel c n kernel l h = rw (kernel, load_vector c.mmu n l h) refl

  enter_lem :
      (c : Cpu D) (n : ℕ)
      → begin_ram + 8 ≤ c.kspr
      → c.kspr < 2 ^ 32
      → length c.mmu.interrupt_vector ≡ 32
      → n < 8
      → enter_handler n c
        ≡ ok tt (record c {
          kernel_mode = true;
          kspr = c.kspr - 8;
          mmu = framed c;
          imr = 0;
          program_counter = handler c.mmu n;
        })
  unfolding enter_handler gets modify pure critical unwrap jump to_word ◌>>=◌ ◌>>◌
  enter_lem c n low high l h =
      let c0 : Cpu D = record c { kernel_mode = true } in
      let c1 : Cpu D = record c0 {
        kspr = c.kspr - 2;
        mmu = with_half c.mmu (c.kspr - 2) (stacked_flags c.flags c.kernel_mode);
      } in
      let c2 : Cpu D = record c1 {
        kspr = c.kspr - 6;
        mmu = with_word c1.mmu (c.kspr - 6) c.program_counter;
      } in
      let c3 : Cpu D = record c2 { kspr = c.kspr - 8; mmu = framed c; imr = 0 } in
      and_then-ok _ (
        ap fatally (
          push_half c0 refl (c.kspr - 2) (stacked_flags c.flags c.kernel_mode) (omega arith)
            (omega arith) high))
      ∙ and_then-ok _ (
          ap fatally (
            push_word c1 refl (c.kspr - 6) c.program_counter (omega arith) (omega arith)
              (omega arith)))
      ∙ and_then-ok _ (
          ap fatally
            (push_half c2 refl (c.kspr - 8) c.imr (omega arith) (omega arith) (omega arith)))
      ∙ and_then-ok _ (vector_entry _ c3 n h)
      ∙ and_then-ok _ (ap fatally (load_kernel c3 n refl l h))

  -- With room for eight bytes of stack in RAM below the kernel stack pointer, a whole interrupt
  -- vector, an interrupt below 8 and registers in their ranges, the entry to the handler succeeds,
  -- in kernel and in user mode. The processor is then in kernel mode with all interrupts masked,
  -- at the address in the vector, its stack holds the old mask, program counter, flags and mode,
  -- and nothing has changed but these registers, the kernel stack pointer and RAM.
  pub enter_handler-IsFrame :
      (c : Cpu D) (n : ℕ)
      → begin_ram + 8 ≤ c.kspr
      → c.kspr < 2 ^ 32
      → c.flags < 2 ^ 15
      → c.program_counter < 2 ^ 32
      → c.imr < 2 ^ 16
      → length c.mmu.interrupt_vector ≡ 32
      → n < 8
      → (ram : Eager.Ram) × IsFrame c (record (c.mmu) { ram = ram }) (c.kspr - 8)
        × (enter_handler n c
            ≡ ok tt (record c {
              kernel_mode = true;
              imr = 0;
              program_counter = handler c.mmu n;
              kspr = c.kspr - 8;
              mmu = record (c.mmu) { ram = ram };
            }))
  enter_handler-IsFrame c n low high flags_lt counter_lt imr_lt l h =
      ((framed c).ram, framed-IsFrame c low flags_lt counter_lt imr_lt, enter_lem c n low high l h)
