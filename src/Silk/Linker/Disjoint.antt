-- ===== src/Silk/Linker/Disjoint.antt =====
-- Merging object files that share no name (linker.rs).
use simulatron.Common.{
  ℕ, ◌+◌, ◌^◌, ◌<◌, ◌≡◌, refl, sym, ◌∙◌, ap, arith, Bool, true, false, Option, none, some, List, [],
  ◌∷◌, ◌++◌, All, ltb, map, append_assoc, append-nil,
}
use simulatron.Silk.Names.{Name}
use simulatron.Silk.Result.{ok, plus_u32}
use simulatron.Silk.Data.{Section, SymbolTableEntry, SymbolTable, ObjectFile}
use simulatron.Silk.Data.Layout.{IsContiguous, end_of, IsPlaced-get_elem?}
use simulatron.Silk.Data.Shift.{shift}
use simulatron.Silk.Parser.{contains_key}
use simulatron.Silk.Verify.Sound.{file_length-end_of}
use simulatron.Silk.Object.{IsWithin, IsTarget, IsVerified, Every, IsObject, IsNodup}
use simulatron.Silk.Tables.{same_name_comm, contains_key-append}
use simulatron.Silk.Linker.{
  get, insert_new, offset_references, offset_value, offset_entry, add_symbol, add_symbols,
  add_objects,
}
use simulatron.Silk.Linker.Merge.{offset_sections_lem}
use simulatron.Silk.Link.Zones.{target-IsSpot}

-- no name of the second table is in the first
abbrev pub IsNewTo : SymbolTable → SymbolTable → Type 0
IsNewTo table [] = Unit
IsNewTo table ((name, entry) ∷ symbols) = (contains_key table name ≡ false) × IsNewTo table symbols

abbrev pub moved_value : ℕ → Option ℕ → Option ℕ
moved_value offset none = none
moved_value offset (some v) = some (v + offset)

-- a symbol whose addresses have moved
abbrev pub moved_entry : ℕ → SymbolTableEntry → SymbolTableEntry
moved_entry offset entry = record entry {
  value = moved_value offset entry.value;
  references = map (λ r. r + offset) entry.references;
}

abbrev pub moved_table : ℕ → SymbolTable → SymbolTable
moved_table offset [] = []
moved_table offset ((name, entry) ∷ symbols) =
    (name, moved_entry offset entry) ∷ moved_table offset symbols

get-none :
    (table : SymbolTable) (name : Name) → contains_key table name ≡ false → get table name ≡ none
unfolding get contains_key
get-none [] name h = refl
get-none ((key, first) ∷ table) name h = ground (arith, get-none table name)

add_symbol-new :
    (table : SymbolTable) (name : Name) (entry : SymbolTableEntry)
    → contains_key table name ≡ false
    → add_symbol table name entry ≡ ok (table ++ (name, entry) ∷ [])
unfolding add_symbol insert_new
add_symbol-new table name entry h = rw (get-none table name h, h, add_symbol) refl

-- The names that are left are still new once one that differs from them is in the table.
IsNewTo-append :
    (table : SymbolTable) (name : Name) (entry : SymbolTableEntry) (symbols : SymbolTable)
    → contains_key symbols name ≡ false
    → IsNewTo table symbols
    → IsNewTo (table ++ (name, entry) ∷ []) symbols
unfolding contains_key
IsNewTo-append table name entry [] h k = tt
IsNewTo-append table name entry ((key, first) ∷ symbols) h k = (
  ground
      (arith, contains_key-append table ((name, entry) ∷ []) key, same_name_comm key name, h, k.0),
  IsNewTo-append table name entry symbols (ground (arith, h)) k.1,
)

module _ (checks : Bool) (offset : ℕ) (new : List Section) (layout : IsContiguous 0 new)
    (small : end_of 0 new + offset < 2 ^ 32) where
  offset_value_lem :
      (value : Option ℕ)
      → IsWithin (end_of 0 new) value
      → offset_value checks offset value ≡ ok (moved_value offset value)
  unfolding offset_value plus_u32
  offset_value_lem none h = refl
  offset_value_lem (some v) h =
      let fits : ltb (v + offset) (2 ^ 32) ≡ true = ground (arith, h) in rw fits refl

  offset_references_lem :
      (references : List ℕ)
      → All (IsTarget new) references
      → offset_references checks offset references ≡ ok (map (λ r. r + offset) references)
  unfolding offset_references plus_u32
  offset_references_lem [] h = refl
  offset_references_lem (r ∷ references) h =
      let spot = target-IsSpot new r layout h.0 in
      let p = IsPlaced-get_elem? 0 new spot.index spot.section layout spot.found in
      let fits : ltb (r + offset) (2 ^ 32) ≡ true = ground (arith, spot.upto, p.before) in
      rw (fits, offset_references_lem references h.1) refl

  offset_entry_lem :
      (entry : SymbolTableEntry)
      → IsVerified new entry
      → offset_entry checks offset entry ≡ ok (moved_entry offset entry)
  unfolding offset_entry
  offset_entry_lem entry v =
      rw
        (
          offset_value_lem entry.value v.within,
          offset_references_lem entry.references v.targets,
          offset_entry,
        )
        refl

  add_symbols_lem :
      (table symbols : SymbolTable)
      → IsNewTo table symbols
      → IsNodup symbols
      → Every (IsVerified new) symbols
      → add_symbols checks offset table symbols ≡ ok (table ++ moved_table offset symbols)
  unfolding add_symbols
  add_symbols_lem table [] fresh distinct v = ap ok (sym (append-nil table))
  add_symbols_lem table ((name, entry) ∷ symbols) fresh distinct v =
      let table' = table ++ (name, moved_entry offset entry) ∷ [] in
      rw
        (
          offset_entry_lem entry v.0,
          add_symbol-new table name (moved_entry offset entry) fresh.0,
          add_symbols,
        )
        (add_symbols_lem table' symbols
            (IsNewTo-append table name (moved_entry offset entry) symbols distinct.0 fresh.1)
            distinct.1 v.1
          ∙ ap ok (
              append_assoc table ((name, moved_entry offset entry) ∷ [])
                (moved_table offset symbols)))

-- Adding a well-formed object file to another with which it shares no name, where together they are
-- shorter than 2 ^ 32 bytes, succeeds: the sections of the second stand behind those of the first, with
-- their starts, the values and the references moved by the length of the first, and no symbol is
-- renamed or changed otherwise.
pub add_objects-disjoint :
    (checks : Bool) (old new : ObjectFile)
    → IsObject old
    → IsObject new
    → end_of 0 new.sections + end_of 0 old.sections < 2 ^ 32
    → IsNewTo old.symbols new.symbols
    → add_objects checks old new
      ≡ ok (record {
        symbols = old.symbols ++ moved_table (end_of 0 old.sections) new.symbols;
        sections = old.sections ++ map (shift (end_of 0 old.sections)) new.sections;
      })
unfolding add_objects
add_objects-disjoint checks old new h k small fresh =
    let n = end_of 0 old.sections in
    rw
      (
        file_length-end_of checks old.sections h.layout h.small,
        offset_sections_lem checks n 0 new.sections k.layout small,
        add_symbols_lem checks n new.sections k.layout small old.symbols new.symbols fresh
            k.distinct k.verified,
        add_objects,
      )
      refl
