-- ===== src/Silk/Parser.antt =====
-- The parser of object files, Crates/simulatron-silk/src/lib/parser.rs. The stream is the list of
pub mod Rules
pub mod Sound
-- the bytes that are left; reading past its end is the one error that it gives.
use simulatron.Common.{
  ℕ, zero, suc, ◌+◌, ◌-◌, ◌^◌, ◌*◌, Bool, true, false, not, ◌||◌, Option, none, some, List, [], ◌∷◌,
  ◌++◌, ltb, ◌==◌, if◌then◌else◌, get_elem?, length, map,
}
use simulatron.Silk.Result
use simulatron.Silk.Result.{
  IoErrorKind, OfError, ok, err, panic, Done, io_error, unexpected_eof, invalid_magic_header,
  unsupported_abi_version, empty_symbol_name, multiple_definitions, address_too_large,
  address_too_small, nonzero_reference_target, unwrap, plus_u32, minus_u32,
}
use simulatron.Silk.Names.{Name, same_name, validate_symbol_name}
use simulatron.Silk.Data.{
  symbol_type_external, symbol_type_name, Section, SymbolTableEntry, SymbolTable, ObjectFile, find,
}

abbrev pub magic_header : List ℕ
magic_header = b'S' ∷ b'I' ∷ b'M' ∷ b'O' ∷ b'B' ∷ b'J' ∷ []

abbrev pub abi_version : ℕ
abi_version = 0x0001

pub record SectionHeader : Type 0 where
  pub flags : ℕ
  pub length : ℕ

pub record Parser : Type 0 where
  pub source : List ℕ
  pub bytes_read : ℕ

abbrev pub Parse : Type 0 → Type 0
Parse A = Parser → Result.Result (A × Parser)

abbrev pub and_then :
    {A B : Type 0} → Result.Result (A × Parser) → (A → Parse B) → Result.Result (B × Parser)
and_then (ok (a, p)) f = f a p
and_then (err e) f = err e
and_then panic f = panic

infixl 5 ◌>>=◌ ◌>>◌
unfoldable pub ◌>>=◌ : {A B : Type 0} → Parse A → (A → Parse B) → Parse B
◌>>=◌ m f p = and_then (m p) f

unfoldable pub ◌>>◌ : {B : Type 0} → Parse Done → Parse B → Parse B
unfolding ◌>>=◌
m >> k = m >>= λ _. k

unfoldable pub pure : {A : Type 0} → A → Parse A
pure a p = ok (a, p)

-- what does not read
unfoldable pub lift : {A : Type 0} → Result.Result A → Parse A
lift r p = Result.◌>>=◌ r (λ a. ok (a, p))

unfoldable pub assert_or_error : Bool → OfError → Parse Done
unfolding lift
assert_or_error b e = lift (Result.assert_or_error b e)

-- `read_exact`: the first `n` bytes and the rest
unfoldable pub take_exact : ℕ → List ℕ → Option (List ℕ × List ℕ)
take_exact zero source = some ([], source)
take_exact (suc n) [] = none
take_exact (suc n) (b ∷ source) = elim (take_exact n source) [
  | none ↦ none
  | some (bytes, rest) ↦ some (b ∷ bytes, rest)
]

-- `u16::from_be_bytes` and `u32::from_be_bytes`, of any number of bytes
unfoldable pub from_be_bytes : ℕ → List ℕ → ℕ
from_be_bytes acc [] = acc
from_be_bytes acc (b ∷ bytes) = from_be_bytes (acc * 2 ^ 8 + b) bytes

-- whether a table has a name
unfoldable pub contains_key : SymbolTable → Name → Bool
contains_key [] name = false
contains_key ((key, entry) ∷ table) name = same_name key name || contains_key table name

-- `self.bytes_read`
unfoldable pub bytes_so_far : Parse ℕ
bytes_so_far p = ok (p.bytes_read, p)

module _ (checks : Bool) where
  -- `read_buffer`, of a buffer of `n` bytes. Its length is a `u32` at every call.
  unfoldable pub read_buffer : ℕ → Parse (List ℕ)
  unfolding take_exact
  read_buffer n p = elim (take_exact n p.source) [
    | none ↦ err (io_error unexpected_eof)
    | some (bytes, rest) ↦
        Result.◌>>=◌ (plus_u32 checks p.bytes_read n)
          (λ bytes_read. ok (bytes, record { source = rest; bytes_read = bytes_read }))
  ]

  -- `read_u8`, `read_u16` and `read_u32`: an integer of `n` bytes
  unfoldable pub read_int : ℕ → Parse ℕ
  unfolding from_be_bytes
  read_int n = do bytes ← read_buffer n; pure (from_be_bytes 0 bytes)

  unfoldable pub parse_references : ℕ → Parse (List ℕ)
  parse_references zero = pure []
  parse_references (suc n) = do
    offset ← read_int 4
    offsets ← parse_references n
    pure (offset ∷ offsets)

  unfoldable pub parse_symbol : SymbolTable → Parse (Name × SymbolTableEntry)
  parse_symbol table = do
    symbol_type ← read_int 1
    _ ← lift (symbol_type_name symbol_type)
    value ← read_int 4
    name_len ← read_int 1
    assert_or_error (ltb 0 name_len) empty_symbol_name
    name_buf ← read_buffer name_len
    name ← lift (validate_symbol_name name_buf)
    assert_or_error (not (contains_key table name)) (multiple_definitions name)
    num_refs ← read_int 4
    references ← parse_references num_refs
    pure (
      name,
      record {
        symbol_type = symbol_type;
        value = if symbol_type == symbol_type_external then none else some value;
        references = references;
      },
    )

  -- `table` has the symbols parsed so far.
  unfoldable pub parse_symbol_table : ℕ → SymbolTable → Parse SymbolTable
  parse_symbol_table zero table = pure table
  parse_symbol_table (suc n) table = do
    symbol ← parse_symbol table
    parse_symbol_table n (table ++ symbol ∷ [])

  unfoldable pub parse_section_headers : ℕ → Parse (List SectionHeader)
  parse_section_headers zero = pure []
  parse_section_headers (suc n) = do
    flags ← read_int 1
    length ← read_int 4
    headers ← parse_section_headers n
    pure (record { flags = flags; length = length } ∷ headers)

  unfoldable pub parse_sections : List SectionHeader → ℕ → Parse (List Section)
  parse_sections [] sections_start = pure []
  parse_sections (header ∷ headers) sections_start = do
    section_start ← bytes_so_far
    bytes ← read_buffer header.length
    start ← lift (minus_u32 checks section_start sections_start)
    sections ← parse_sections headers sections_start
    pure (
        record { flags = header.flags; start = start; length = header.length; bytes = bytes }
        ∷ sections)
