-- ===== src/Cpu/Shifts.antt =====
-- Shifts and rotations (cpu.rs, cpu/macros.rs). The amount is a byte.
pub mod Carry
use simulatron.Common.{ℕ, zero, suc, ◌-◌, ◌^◌, Bool, true, false, none, some, ltb, if◌then◌else◌}
use simulatron.Common.Int.{signed, pos, ◌<ℤ◌}
use simulatron.Exec.{Exec, Done, crash, gets, ◌>>=◌, ◌>>◌}
use simulatron.Cpu.Values.{Width, bits, int_value}
use simulatron.Cpu.State.{Cpu}
use simulatron.Cpu.Registers.{read_from_register, write_to_register}
use simulatron.Cpu.Flags.{make_flags_int, is_set, flag_carry}
use simulatron.Cpu.Arith.{
  checked_shl, checked_shr, checked_shr_signed, leading_zeros, trailing_zeros, rotate_left,
  rotate_right,
}
use simulatron.Cpu.Alu.{set_flags, by_width}
use simulatron.Cpu.Rotcarry.{rcl, rcr}

-- `(ans, carry)` of each shift
unfoldable pub lshift : Width → ℕ → ℕ → ℕ × Bool
unfolding checked_shl leading_zeros
lshift w x value = elim (checked_shl w x value) [
  | some z ↦ (z, ltb (leading_zeros (bits w) x) value)
  | none ↦ (0, true)
]

unfoldable pub srshift : Width → ℕ → ℕ → ℕ × Bool
unfolding checked_shr_signed trailing_zeros signed
srshift w x value = elim (checked_shr_signed w x value) [
  | some z ↦ (z, ltb (trailing_zeros (bits w) x) value)
  | none ↦ ((if signed (bits w) x <ℤ pos 0 then 2 ^ bits w - 1 else 0), true)
]

unfoldable pub urshift : Width → ℕ → ℕ → ℕ × Bool
unfolding checked_shr trailing_zeros
urshift w x value = elim (checked_shr w x value) [
  | some z ↦ (z, ltb (trailing_zeros (bits w) x) value)
  | none ↦ (0, true)
]

-- `for _ in 0..n { (ans, carry) = ans.op(carry) }`
unfoldable pub rotate_loop : (ℕ → Bool → ℕ × Bool) → ℕ → ℕ × Bool → ℕ × Bool
rotate_loop op zero result = result
rotate_loop op (suc n) (ans, carry) = rotate_loop op n (op ans carry)

module _ {D : Type 0} where
  -- What the instructions share: replace the register by an answer, and set the flags by it.
  unfoldable pub on_register : ℕ → (ℕ → Width → ℕ → ℕ × Bool) → Exec (Cpu D) Done
  on_register reg_ref op = do
    flags ← gets (λ c. c.flags)
    old ← read_from_register reg_ref
    by_width old
        (λ w x. do
          let result = op flags w x
          write_to_register reg_ref (int_value w result.0)
          set_flags (make_flags_int w result.0 result.1 false))
        (λ _. crash)

  unfoldable pub instruction_lshift : ℕ → ℕ → Exec (Cpu D) Done
  unfolding lshift
  instruction_lshift reg_ref value = on_register reg_ref (λ _ w x. lshift w x value)

  unfoldable pub instruction_srshift : ℕ → ℕ → Exec (Cpu D) Done
  unfolding srshift
  instruction_srshift reg_ref value = on_register reg_ref (λ _ w x. srshift w x value)

  unfoldable pub instruction_urshift : ℕ → ℕ → Exec (Cpu D) Done
  unfolding urshift
  instruction_urshift reg_ref value = on_register reg_ref (λ _ w x. urshift w x value)

  unfoldable pub instruction_lrot : ℕ → ℕ → Exec (Cpu D) Done
  unfolding rotate_left
  instruction_lrot reg_ref value = on_register reg_ref (λ _ w x. (rotate_left w x value, false))

  unfoldable pub instruction_rrot : ℕ → ℕ → Exec (Cpu D) Done
  unfolding rotate_right
  instruction_rrot reg_ref value = on_register reg_ref (λ _ w x. (rotate_right w x value, false))

  unfoldable pub instruction_lrotcarry : ℕ → ℕ → Exec (Cpu D) Done
  unfolding rotate_loop rcl
  instruction_lrotcarry reg_ref value =
      on_register reg_ref (λ flags w x. rotate_loop (rcl w) value (x, is_set flags flag_carry))

  unfoldable pub instruction_rrotcarry : ℕ → ℕ → Exec (Cpu D) Done
  unfolding rotate_loop rcr
  instruction_rrotcarry reg_ref value =
      on_register reg_ref (λ flags w x. rotate_loop (rcr w) value (x, is_set flags flag_carry))
