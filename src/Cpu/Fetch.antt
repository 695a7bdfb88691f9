-- ===== src/Cpu/Fetch.antt =====
-- The local macros of `interrupt_fetch_decode_execute` (cpu.rs).
use simulatron.Common.{
  ℕ, ◌+◌, ◌%◌, ◌^◌, Bool, true, false, not, Option, none, some, List, [], ◌∷◌, ◌==◌, if◌then◌else◌,
}
use simulatron.Exec.{Exec, Done, pure, gets, unwrap, modify, add_u32, ◌>>=◌, ◌>>◌}
use simulatron.Platform.{Platform}
use simulatron.Cpu.Values.{
  ValueType, byte_type, word_type, float_type, TypedValue, same_type, size_in_bytes, to_byte,
  to_word,
}
use simulatron.Cpu.State.{Cpu, illegal_operation}
use simulatron.Cpu.Registers.{reg_ref_type, read_from_register}
use simulatron.Cpu.Memory.{load}

-- How an arm of the `match` ends: an early return with an action, or the end of the `match`, with
-- the value of `skip_pause_next`.
pub data Ending : Type 0 where
  halts pauses : Ending
  continues : Bool → Ending

-- `match key { k => arm, .. , _ => default }`
unfoldable pub select {ℓ} : {A : Type ℓ} → ℕ → List (ℕ × A) → A → A
select key [] default = default
select key ((k, arm) ∷ arms) default = if key == k then arm else select key arms default

-- what `try_tv_into_v!` makes of a value of the wrong type
unfoldable pub or_illegal : {D A : Type 0} → Option A → Exec (Cpu D) A
unfolding pure
or_illegal none = illegal_operation
or_illegal (some a) = pure a

module _ {D : Type 0} ⦃platform : Platform D⦄ where
  open platform use {debug}

  unfoldable pub fetch_variable_size : ValueType → Exec (Cpu D) TypedValue
  fetch_variable_size value_type = do
    pc ← gets (λ c. c.program_counter)
    value ← load pc true value_type
    let size = size_in_bytes value
    modify (λ c. record c { program_counter = (c.program_counter + size) % 2 ^ 32 })
    old ← gets (λ c. c.rewind)
    rewind ← add_u32 debug old size
    modify (λ c. record c { rewind = rewind })
    pure value

  -- `fetch!(Byte)` and `fetch!(Word)`
  unfoldable pub fetch_byte : Exec (Cpu D) ℕ
  fetch_byte = do value ← fetch_variable_size byte_type; unwrap (to_byte value)

  unfoldable pub fetch_word : Exec (Cpu D) ℕ
  fetch_word = do value ← fetch_variable_size word_type; unwrap (to_word value)

  -- `try_tv_into_v!(self.read_from_register(r)?)` at `u32` and at `u8`
  unfoldable pub register_word : ℕ → Exec (Cpu D) ℕ
  register_word reg_ref = do value ← read_from_register reg_ref; or_illegal (to_word value)

  unfoldable pub register_byte : ℕ → Exec (Cpu D) ℕ
  register_byte reg_ref = do value ← read_from_register reg_ref; or_illegal (to_byte value)

  unfoldable pub check_same_type : ℕ → ℕ → Exec (Cpu D) Done
  check_same_type r1 r2 = do
    t1 ← reg_ref_type r1
    t2 ← reg_ref_type r2
    if not (same_type t1 t2) then illegal_operation else pure tt

  unfoldable pub reject_float : ℕ → Exec (Cpu D) Done
  reject_float reg_ref = do
    t ← reg_ref_type reg_ref
    if same_type t float_type then illegal_operation else pure tt

  -- an arm that runs to the end of the `match`
  unfoldable pub done : Exec (Cpu D) Done → Exec (Cpu D) Ending
  done body = do _ ← body; pure (continues false)

  -- the arm for one opcode
  abbrev pub case : ℕ → Exec (Cpu D) Done → ℕ × Exec (Cpu D) Ending
  case opcode body = (opcode, done body)
