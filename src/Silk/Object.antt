-- ===== src/Silk/Object.antt =====
-- What the linker relies on of an object file (data.rs): the layout of its sections, its symbols'
-- names and types, and values and references within the sections.
use simulatron.Common.{
  ℕ, zero, suc, ◌+◌, ◌-◌, ◌^◌, ◌<◌, ◌≤◌, ◌≡◌, ◌⊎◌, false, Option, none, some, List, [], ◌∷◌,
  get_elem?, All,
}
use simulatron.Silk.Data.{
  symbol_type_internal, symbol_type_public, symbol_type_external, Section, SymbolTableEntry,
  SymbolTable, ObjectFile,
}
use simulatron.Silk.Data.Layout.{IsContiguous, end_of}
use simulatron.Silk.Parser.{contains_key}

-- An external symbol has no value, and the others have one.
abbrev pub IsTyped : ℕ → Option ℕ → Type 0
IsTyped t none = t ≡ symbol_type_external
IsTyped t (some v) = (t ≡ symbol_type_internal) ⊎ (t ≡ symbol_type_public)

-- `n` zero bytes from an offset on
abbrev pub Zeros : List ℕ → ℕ → ℕ → Type 0
Zeros bytes offset zero = Unit
Zeros bytes offset (suc n) = (get_elem? bytes offset ≡ some 0) × Zeros bytes (offset + 1) n

-- A reference points at four zero bytes within one section.
pub record IsTarget (sections : List Section) (reference : ℕ) : Type 0 where
  pub index : ℕ
  pub section : Section
  pub found : get_elem? sections index ≡ some section
  pub from : section.start ≤ reference
  pub zeros : Zeros section.bytes (reference - section.start) 4

-- the value, if any, lies before the end
abbrev pub IsWithin : ℕ → Option ℕ → Type 0
IsWithin end none = Unit
IsWithin end (some v) = v < end

pub record IsVerified (sections : List Section) (entry : SymbolTableEntry) : Type 0 where
  pub typed : IsTyped entry.symbol_type entry.value
  pub within : IsWithin (end_of 0 sections) entry.value
  pub targets : All (IsTarget sections) entry.references

-- No name occurs twice.
abbrev pub IsNodup : SymbolTable → Type 0
IsNodup [] = Unit
IsNodup ((name, entry) ∷ table) = (contains_key table name ≡ false) × IsNodup table

-- a property of every entry
abbrev pub Every : (SymbolTableEntry → Type 0) → SymbolTable → Type 0
Every P [] = Unit
Every P ((name, entry) ∷ table) = P entry × Every P table

pub record IsObject (of : ObjectFile) : Type 0 where
  pub layout : IsContiguous 0 of.sections
  pub small : end_of 0 of.sections < 2 ^ 32
  pub verified : Every (IsVerified of.sections) of.symbols
  pub distinct : IsNodup of.symbols
