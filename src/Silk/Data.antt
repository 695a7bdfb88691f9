-- ===== src/Silk/Data.antt =====
-- Object files and their sections, Crates/simulatron-silk/src/lib/data.rs.
pub mod Layout
pub mod Shift
pub mod Find
use Prim.Native.Nat.{Ordering}
use simulatron.Common.{
  ℕ, zero, suc, ◌+◌, ◌-◌, ◌/◌, ◌^◌, Bool, Option, none, some, List, ltb, ◌==◌, if◌then◌else◌,
  get_elem?, length,
}
use simulatron.Silk.Result.{
  Result, ok, err, panic, Done, invalid_symbol_type, unwrap, plus_u32, ◌>>=◌,
}
use simulatron.Silk.Names.{Name}

abbrev pub symbol_type_internal : ℕ
symbol_type_internal = b'I'

abbrev pub symbol_type_public : ℕ
symbol_type_public = b'P'

abbrev pub symbol_type_external : ℕ
symbol_type_external = b'E'

-- The name that it gives is only printed.
unfoldable pub symbol_type_name : ℕ → Result Done
symbol_type_name symbol_type =
    if symbol_type == symbol_type_internal
    then ok tt
    else if symbol_type == symbol_type_public
    then ok tt
    else if symbol_type == symbol_type_external
    then ok tt
    else err invalid_symbol_type

abbrev pub flag_entrypoint : ℕ
flag_entrypoint = 0x01

abbrev pub flag_write : ℕ
flag_write = 0x08

abbrev pub flag_execute : ℕ
flag_execute = 0x10

-- the complement of the four flags, the one for reading being 0x04
abbrev pub invalid_flags : ℕ
invalid_flags = 0b11100010

abbrev pub rom_size : ℕ
rom_size = 512

abbrev pub disk_align : ℕ
disk_align = 4096

abbrev pub rom_base : ℕ
rom_base = 0x40

abbrev pub disk_base : ℕ
disk_base = 0x4000

-- `bytes` is the field `data`, whose name is a keyword here.
pub record Section : Type 0 where
  pub flags : ℕ
  pub start : ℕ
  pub length : ℕ
  pub bytes : List ℕ

pub record SymbolTableEntry : Type 0 where
  pub symbol_type : ℕ
  pub value : Option ℕ
  pub references : List ℕ

-- The hash map as the list of its entries. The order in which a hash map is iterated over is not
-- specified: here it is that of the list.
abbrev pub SymbolTable : Type 0
SymbolTable = List (Name × SymbolTableEntry)

pub record ObjectFile : Type 0 where
  pub symbols : SymbolTable
  pub sections : List Section

module _ (checks : Bool) where
  unfoldable pub compare_address : Section → ℕ → Result Ordering
  unfolding plus_u32
  compare_address section index =
      if ltb index section.start
      then ok Ordering.gt
      else (plus_u32 checks section.start section.length >>= λ end.
          if ltb index end then ok Ordering.eq else ok Ordering.lt)

  -- The loop of `binary_search_by` over `[left, right)`. Out of fuel it gives a panic.
  unfoldable pub search_loop : ℕ → List Section → ℕ → ℕ → ℕ → Result (Option ℕ)
  unfolding compare_address
  search_loop zero sections address left right = panic
  search_loop (suc fuel) sections address left right =
      let mid = left + (right - left) / 2 in
      let upper = search_loop fuel sections address (mid + 1) right in
      let lower = search_loop fuel sections address left mid in
      let probe : Result (Option ℕ) = (do
        section ← unwrap (get_elem? sections mid)
        ordering ← compare_address section address
        elim ordering [
          | Ordering.lt ↦ upper
          | Ordering.eq ↦ ok (some mid)
          | Ordering.gt ↦ lower
        ]) in
      if ltb left right then probe else ok none

  -- `Section::find` and `Section::find_mut`: the section's index
  unfoldable pub find : List Section → ℕ → Result (Option ℕ)
  find sections address = let n = length sections in search_loop (n + 1) sections address 0 n
