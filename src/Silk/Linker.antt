-- ===== src/Silk/Linker.antt =====
-- The linker, Crates/simulatron-silk/src/lib/linker.rs.
pub mod Tables
pub mod Resolve
pub mod Merge
pub mod Clash
pub mod Disjoint
use simulatron.Common.{
  ℕ, zero, suc, ◌+◌, ◌-◌, ◌%◌, ◌^◌, ◌/◌, ◌*◌, Bool, true, false, not, ◌&&◌, Option, none, some,
  List, [], ◌∷◌, ◌++◌, map, bit_and, ltb, leb, ◌==◌, if◌then◌else◌, get_elem?, set, length,
  replicate,
}
use simulatron.Silk.Result.{
  Result, ok, err, panic, Done, multiple_definitions, unresolved_symbol, exceeds_rom_capacity,
  invalid_section_flags, writable_in_read_only, entrypoint_not_executable, multiple_entrypoints,
  no_entrypoint, empty_image, assert_or_error, assert, unwrap, plus_u32, minus_u32, ◌>>=◌, ◌>>◌,
}
use simulatron.Silk.Names.{Name, same_name, gen_non_conflicting_name}
use simulatron.Silk.Data.{
  symbol_type_internal, symbol_type_public, symbol_type_external, flag_entrypoint, flag_write,
  flag_execute, invalid_flags, rom_size, disk_align, rom_base, disk_base, Section, SymbolTableEntry,
  SymbolTable, ObjectFile, find,
}
use simulatron.Silk.Parser.{contains_key}
use simulatron.Silk.Verify.{last_section, file_length}

-- `Linker::new`
abbrev pub empty_linker : ObjectFile
empty_linker = record { symbols = []; sections = [] }

-- `get_mut`, where the entry is only read
unfoldable pub get : SymbolTable → Name → Option SymbolTableEntry
get [] name = none
get ((key, entry) ∷ table) name = if same_name key name then some entry else get table name

-- an entry changed in place
unfoldable pub put : SymbolTable → Name → SymbolTableEntry → SymbolTable
put [] name new = []
put ((key, entry) ∷ table) name new =
    if same_name key name then (key, new) ∷ table else (key, entry) ∷ put table name new

unfoldable pub remove : SymbolTable → Name → SymbolTable
remove [] name = []
remove ((key, entry) ∷ table) name =
    if same_name key name then table else (key, entry) ∷ remove table name

-- `insert`, and the sanity check that the name was new
unfoldable pub insert_new : SymbolTable → Name → SymbolTableEntry → Result SymbolTable
unfolding contains_key
insert_new table name entry =
    if contains_key table name then panic else ok (table ++ (name, entry) ∷ [])

-- A value of the existing entry or of the new one is asserted to be there or not.
abbrev pub is_some : Option ℕ → Bool
is_some none = false
is_some (some v) = true

-- a) rename to avoid a collision, b) resolve between external and public, c) reject
unfoldable pub resolve :
    SymbolTable → Name → SymbolTableEntry → SymbolTableEntry → Result SymbolTable
unfolding put remove insert_new gen_non_conflicting_name
resolve table name existing_entry new_entry =
    if new_entry.symbol_type == symbol_type_internal
    then (do
      new_name ← gen_non_conflicting_name (contains_key table) name
      insert_new table new_name new_entry)
    else if existing_entry.symbol_type == symbol_type_internal
    then (do
      new_name ← gen_non_conflicting_name (contains_key table) name
      table' ← insert_new (remove table name) new_name existing_entry
      insert_new table' name new_entry)
    else if new_entry.symbol_type == symbol_type_external
        && existing_entry.symbol_type == symbol_type_public
    then ok (
        put table name (record existing_entry {
          references = existing_entry.references ++ new_entry.references;
        }))
    else if new_entry.symbol_type == symbol_type_public
        && existing_entry.symbol_type == symbol_type_external
    then (do
      assert (not (is_some existing_entry.value))
      assert (is_some new_entry.value)
      ok (
          put table name (record existing_entry {
            symbol_type = symbol_type_public;
            value = new_entry.value;
            references = existing_entry.references ++ new_entry.references;
          })))
    else if new_entry.symbol_type == symbol_type_public
        && existing_entry.symbol_type == symbol_type_public
    then err (multiple_definitions name)
    else panic

unfoldable pub add_symbol : SymbolTable → Name → SymbolTableEntry → Result SymbolTable
unfolding get resolve insert_new
add_symbol table name new_entry = elim (get table name) [
  | none ↦ insert_new table name new_entry
  | some existing_entry ↦ resolve table name existing_entry new_entry
]

module _ (checks : Bool) where
  unfoldable pub offset_sections : ℕ → List Section → Result (List Section)
  offset_sections offset [] = ok []
  offset_sections offset (section ∷ sections) = do
    start ← plus_u32 checks section.start offset
    others ← offset_sections offset sections
    ok (record section { start = start } ∷ others)

  unfoldable pub offset_references : ℕ → List ℕ → Result (List ℕ)
  offset_references offset [] = ok []
  offset_references offset (reference ∷ references) = do
    moved ← plus_u32 checks reference offset
    others ← offset_references offset references
    ok (moved ∷ others)

  unfoldable pub offset_value : ℕ → Option ℕ → Result (Option ℕ)
  offset_value offset none = ok none
  offset_value offset (some v) = do moved ← plus_u32 checks v offset; ok (some moved)

  unfoldable pub offset_entry : ℕ → SymbolTableEntry → Result SymbolTableEntry
  offset_entry offset entry = do
    value ← offset_value offset entry.value
    references ← offset_references offset entry.references
    ok (record entry { value = value; references = references })

  -- the loop over the other file's symbols
  unfoldable pub add_symbols : ℕ → SymbolTable → SymbolTable → Result SymbolTable
  add_symbols offset table [] = ok table
  add_symbols offset table ((name, entry) ∷ symbols) = do
    new_entry ← offset_entry offset entry
    table' ← add_symbol table name new_entry
    add_symbols offset table' symbols

  unfoldable pub add_objects : ObjectFile → ObjectFile → Result ObjectFile
  add_objects data' of = do
    offset ← file_length checks data'.sections
    sections ← offset_sections offset of.sections
    symbols ← add_symbols offset data'.symbols of.symbols
    ok (record { symbols = symbols; sections = data'.sections ++ sections })
