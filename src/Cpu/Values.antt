-- ===== src/Cpu/Values.antt =====
-- Typed values and their types, Crates/simulatron-vm/src/lib/cpu.rs.
use simulatron.Common.{ℕ, ◌+◌, ◌%◌, ◌^◌, Bool, false, Option, none, some, ◌==◌, ltb, if◌then◌else◌}
use simulatron.Exec.{Exec, pure, crash}

pub data ValueType : Type 0 where
  byte_type half_type word_type float_type : ValueType

pub data TypedValue : Type 0 where
  byte half word float : ℕ → TypedValue

-- `ValueType::from(&TypedValue)`
unfoldable pub type_of : TypedValue → ValueType
type_of (byte x) = byte_type
type_of (half x) = half_type
type_of (word x) = word_type
type_of (float x) = float_type

-- `==` on value types
unfoldable pub same_type : ValueType → ValueType → Bool
same_type byte_type byte_type = Bool.true
same_type half_type half_type = Bool.true
same_type word_type word_type = Bool.true
same_type float_type float_type = Bool.true
same_type _ _ = false

unfoldable pub size_in_bytes : TypedValue → ℕ
size_in_bytes (byte x) = 1
size_in_bytes (half x) = 2
size_in_bytes (word x) = 4
size_in_bytes (float x) = 4

unfoldable pub is_integer_zero : TypedValue → Bool
is_integer_zero (byte x) = x == 0
is_integer_zero (half x) = x == 0
is_integer_zero (word x) = x == 0
is_integer_zero (float x) = false

-- `x += 1` on an unsigned integer of `w` bits.
unfoldable pub increment_int : {S : Type 0} → Bool → ℕ → ℕ → Exec S ℕ
unfolding pure crash
increment_int debug w x =
    if ltb (x + 1) (2 ^ w) then pure (x + 1) else if debug then crash else pure ((x + 1) % 2 ^ w)

-- `u8::try_from(value)` and so on.
unfoldable pub to_byte : TypedValue → Option ℕ
to_byte (byte b) = some b
to_byte _ = none

unfoldable pub to_half : TypedValue → Option ℕ
to_half (half h) = some h
to_half _ = none

unfoldable pub to_word : TypedValue → Option ℕ
to_word (word w) = some w
to_word _ = none

unfoldable pub to_float : TypedValue → Option ℕ
to_float (float f) = some f
to_float _ = none

-- The three integer types, for the macros that repeat one arm for each of them.
pub data Width : Type 0 where
  w8 w16 w32 : Width

abbrev pub bits : Width → ℕ
bits w8 = 8
bits w16 = 16
bits w32 = 32

abbrev pub int_value : Width → ℕ → TypedValue
int_value w8 = byte
int_value w16 = half
int_value w32 = word

unfoldable pub to_int : Width → TypedValue → Option ℕ
unfolding to_byte to_half to_word
to_int w8 = to_byte
to_int w16 = to_half
to_int w32 = to_word
