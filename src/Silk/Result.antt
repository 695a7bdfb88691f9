-- ===== src/Silk/Result.antt =====
-- `OFResult` (Crates/simulatron-silk/src/lib/error.rs), with the panics of the code that returns it.
use simulatron.Common.{
  ℕ, ◌+◌, ◌-◌, ◌%◌, ◌^◌, Bool, true, false, Option, none, some, List, ltb, leb, if◌then◌else◌,
}

-- `io::ErrorKind`, as far as it is told apart
pub data IoErrorKind : Type 0 where
  permission_denied unexpected_eof out_of_memory other : IoErrorKind

-- One constructor for each message, with what is formatted into it. A name is its bytes.
pub data OfError : Type 0 where
  io_error : IoErrorKind → OfError
  invalid_magic_header unsupported_abi_version invalid_symbol_type empty_symbol_name : OfError
  multiple_definitions invalid_symbol_name unresolved_symbol rename_failed : List ℕ → OfError
  unprintable_symbol_name nonzero_reference_target : OfError
  address_too_large address_too_small exceeds_rom_capacity : ℕ → OfError
  invalid_section_flags writable_in_read_only entrypoint_not_executable : OfError
  multiple_entrypoints no_entrypoint empty_image : OfError

pub data Result (A : Type 0) : Type 0 where
  ok : A → Result A
  err : OfError → Result A
  panic : Result A

abbrev pub Done : Type 0
Done = Unit {0}

infixl 5 ◌>>=◌ ◌>>◌
abbrev pub ◌>>=◌ : {A B : Type 0} → Result A → (A → Result B) → Result B
ok a >>= f = f a
err e >>= f = err e
panic >>= f = panic

abbrev pub ◌>>◌ : {B : Type 0} → Result Done → Result B → Result B
m >> k = m >>= λ _. k

-- the macro `assert_or_error!`
abbrev pub assert_or_error : Bool → OfError → Result Done
assert_or_error true e = ok tt
assert_or_error false e = err e

-- `assert!`
abbrev pub assert : Bool → Result Done
assert true = ok tt
assert false = panic

-- `unwrap`, and an index that Rust checks
abbrev pub unwrap : {A : Type 0} → Option A → Result A
unwrap none = panic
unwrap (some a) = ok a

-- `a + b` and `a - b` on `u32`: with overflow checks they panic out of range, and wrap without.
unfoldable pub plus_u32 : Bool → ℕ → ℕ → Result ℕ
plus_u32 checks a b =
    if ltb (a + b) (2 ^ 32) then ok (a + b) else if checks then panic else ok ((a + b) % 2 ^ 32)

unfoldable pub minus_u32 : Bool → ℕ → ℕ → Result ℕ
minus_u32 checks a b =
    if leb b a then ok (a - b) else if checks then panic else ok ((a + 2 ^ 32 - b) % 2 ^ 32)
