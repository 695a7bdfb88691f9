-- ===== src/Cpu/Registers.antt =====
-- Register references (cpu.rs): types, reads and writes.
use simulatron.Common.{ℕ, ◌-◌, ◌%◌, ◌^◌, bit_and, bit_or, ltb, ◌==◌, if◌then◌else◌, get_elem?, set}
use simulatron.Exec.{Exec, Done, pure, gets, unwrap, modify, ◌>>=◌, ◌>>◌}
use simulatron.Cpu.Values.{
  ValueType, byte_type, half_type, word_type, float_type, TypedValue, byte, half, word, float,
}
use simulatron.Cpu.State.{Cpu, illegal_operation, privileged}

module _ {D : Type 0} where
  unfoldable pub reg_ref_type : ℕ → Exec (Cpu D) ValueType
  reg_ref_type reg_ref =
      if ltb reg_ref 0x08
      then pure word_type
      else if ltb reg_ref 0x10
      then pure half_type
      else if ltb reg_ref 0x18
      then pure byte_type
      else if ltb reg_ref 0x20
      then pure float_type
      else if reg_ref == 0x20
      then pure half_type
      else if ltb reg_ref 0x24
      then pure word_type
      else if reg_ref == 0x24
      then pure half_type
      else if reg_ref == 0x25
      then pure word_type
      else illegal_operation

  -- `self.r[i]` and `self.f[i]`
  unfoldable pub get_r : ℕ → Exec (Cpu D) ℕ
  get_r i = do rs ← gets (λ c. c.r); unwrap (get_elem? rs i)

  unfoldable pub get_f : ℕ → Exec (Cpu D) ℕ
  get_f i = do fs ← gets (λ c. c.f); unwrap (get_elem? fs i)

  unfoldable pub set_r : ℕ → ℕ → Exec (Cpu D) Done
  set_r i v = do _ ← get_r i; modify (λ c. record c { r = set c.r i v })

  unfoldable pub set_f : ℕ → ℕ → Exec (Cpu D) Done
  set_f i v = do _ ← get_f i; modify (λ c. record c { f = set c.f i v })

  -- `if let TypedValue::Word(w) = value { k }`, with the error for a mismatch.
  abbrev pub if_byte : TypedValue → (ℕ → Exec (Cpu D) Done) → Exec (Cpu D) Done
  if_byte value k = elim value [ byte b ↦ k b | _ ↦ illegal_operation ]

  abbrev pub if_half : TypedValue → (ℕ → Exec (Cpu D) Done) → Exec (Cpu D) Done
  if_half value k = elim value [ half h ↦ k h | _ ↦ illegal_operation ]

  abbrev pub if_word : TypedValue → (ℕ → Exec (Cpu D) Done) → Exec (Cpu D) Done
  if_word value k = elim value [ word w ↦ k w | _ ↦ illegal_operation ]

  abbrev pub if_float : TypedValue → (ℕ → Exec (Cpu D) Done) → Exec (Cpu D) Done
  if_float value k = elim value [ float f ↦ k f | _ ↦ illegal_operation ]

  unfoldable pub write_to_register : ℕ → TypedValue → Exec (Cpu D) Done
  write_to_register reg_ref value =
      if ltb reg_ref 0x08
      then if_word value (λ w. set_r reg_ref w)
      else if ltb reg_ref 0x10
      then if_half value (λ h. do
        old ← get_r (reg_ref - 0x08)
        let masked = bit_and old 0xFFFF0000
        set_r (reg_ref - 0x08) (bit_or masked h))
      else if ltb reg_ref 0x18
      then if_byte value (λ b. do
        old ← get_r (reg_ref - 0x10)
        let masked = bit_and old 0xFFFFFF00
        set_r (reg_ref - 0x10) (bit_or masked b))
      else if ltb reg_ref 0x20
      then if_float value (λ f. set_f (reg_ref - 0x18) f)
      else if reg_ref == 0x20
      then if_half value (λ h. modify (λ c. record c { flags = bit_and h 0b0111111111111111 }))
      else if reg_ref == 0x21
      then if_word value (λ w. modify (λ c. record c { uspr = w }))
      else if reg_ref == 0x22
      then if_word value (λ w. privileged >> modify (λ c. record c { kspr = w }))
      else if reg_ref == 0x23
      then if_word value (λ w. privileged >> modify (λ c. record c { pdpr = w }))
      else if reg_ref == 0x24
      then if_half value (λ h. privileged >> modify (λ c. record c { imr = h }))
      else illegal_operation

  unfoldable pub read_from_register : ℕ → Exec (Cpu D) TypedValue
  read_from_register reg_ref =
      if ltb reg_ref 0x08
      then (do x ← get_r reg_ref; pure (word x))
      else if ltb reg_ref 0x10
      then (do x ← get_r (reg_ref - 0x08); pure (half (x % 2 ^ 16)))
      else if ltb reg_ref 0x18
      then (do x ← get_r (reg_ref - 0x10); pure (byte (x % 2 ^ 8)))
      else if ltb reg_ref 0x20
      then (do x ← get_f (reg_ref - 0x18); pure (float x))
      else if reg_ref == 0x20
      then gets (λ c. half c.flags)
      else if reg_ref == 0x21
      then gets (λ c. word c.uspr)
      else if reg_ref == 0x22
      then privileged >> gets (λ c. word c.kspr)
      else if reg_ref == 0x23
      then privileged >> gets (λ c. word c.pdpr)
      else if reg_ref == 0x24
      then privileged >> gets (λ c. half c.imr)
      else if reg_ref == 0x25
      then privileged >> gets (λ c. word c.mmu.pfsr)
      else illegal_operation
