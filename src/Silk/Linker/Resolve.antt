-- ===== src/Silk/Linker/Resolve.antt =====
-- Adding a symbol to a table of well-formed ones (linker.rs).
use simulatron.Common.{
  ℕ, ◌≡◌, refl, Bool, true, false, not, ◌&&◌, Option, none, some, List, [], ◌∷◌, ◌++◌, Bool-cases,
  inl, inr, if◌then◌else◌, ◌==◌, All,
}
use simulatron.Silk.Names.{Name, gen_non_conflicting_name}
use simulatron.Silk.Result.{Result, ok, err, panic, assert, ◌>>=◌, ◌>>◌, multiple_definitions}
use simulatron.Silk.Data.{
  Section, SymbolTableEntry, SymbolTable, symbol_type_internal, symbol_type_public,
  symbol_type_external,
}
use simulatron.Silk.Data.Layout.{end_of}
use simulatron.Silk.Parser.{contains_key}
use simulatron.Silk.Parser.Rules.{Gives, Gives-bind}
use simulatron.Silk.Verify.Sound.{Gives-any}
use simulatron.Silk.Object.{IsWithin, IsTarget, IsVerified}
use simulatron.Silk.Linker.{get, put, remove, insert_new, is_some, resolve, add_symbol}
use simulatron.Silk.Linker.Tables.{
  IsTableOf, get-Every, put-IsTableOf, remove-IsTableOf, insert_new-Gives,
}

All-append : (P : ℕ → Type 0) (xs ys : List ℕ) → All P xs → All P ys → All P (xs ++ ys)
All-append P [] ys h k = k
All-append P (x ∷ xs) ys h k = (h.0, All-append P xs ys h.1 k)

module _ (sections : List Section) where
  abbrev Good : SymbolTable → Type 0
  Good = IsTableOf (IsVerified sections)

  more_references :
      (entry : SymbolTableEntry) (references : List ℕ)
      → IsVerified sections entry
      → All (IsTarget sections) references
      → IsVerified sections (record entry { references = entry.references ++ references })
  more_references entry references v r = record {
    typed = v.typed;
    within = v.within;
    targets = All-append (IsTarget sections) entry.references references v.targets r;
  }

  -- An external symbol gets the value of the public one.
  defined :
      (value : Option ℕ) (references : List ℕ)
      → is_some value ≡ true
      → IsWithin (end_of 0 sections) value
      → All (IsTarget sections) references
      → IsVerified sections
          (record { symbol_type = symbol_type_public; value = value; references = references })
  defined none references s w r = cc
  defined (some v) references s w r = record { typed = inr refl; within = w; targets = r }

  rename_new :
      (table : SymbolTable) (name : Name) (new : SymbolTableEntry)
      → Good table
      → IsVerified sections new
      → Gives Good (
          gen_non_conflicting_name (contains_key table) name >>= λ new_name.
          insert_new table new_name new)
  rename_new table name new h v =
      Gives-bind (λ _. Unit {0}) Good (gen_non_conflicting_name (contains_key table) name) _
        (Gives-any (gen_non_conflicting_name (contains_key table) name))
        (λ new_name _. insert_new-Gives (IsVerified sections) table new_name new h v)

  rename_existing :
      (table : SymbolTable) (name : Name) (existing new : SymbolTableEntry)
      → Good table
      → IsVerified sections existing
      → IsVerified sections new
      → Gives Good (
          gen_non_conflicting_name (contains_key table) name >>= λ new_name.
          insert_new (remove table name) new_name existing >>= λ table'. insert_new table' name new)
  rename_existing table name existing new h v w =
      Gives-bind (λ _. Unit {0}) Good (gen_non_conflicting_name (contains_key table) name) _
        (Gives-any (gen_non_conflicting_name (contains_key table) name))
        (λ new_name _.
          Gives-bind Good Good (insert_new (remove table name) new_name existing) _
            (insert_new-Gives (IsVerified sections) (remove table name) new_name existing
              (remove-IsTableOf (IsVerified sections) table name h) v)
            (λ table' h'. insert_new-Gives (IsVerified sections) table' name new h' w))

  define :
      (table : SymbolTable) (name : Name) (existing new : SymbolTableEntry) (b : Bool)
      → Good table
      → IsVerified sections existing
      → IsVerified sections new
      → Gives Good (
          assert b
          >> (assert (is_some new.value)
              >> ok (
                  put table name (record existing {
                    symbol_type = symbol_type_public;
                    value = new.value;
                    references = existing.references ++ new.references;
                  }))))
  define table name existing new false h v w = tt
  define table name existing new true h v w = elim (Bool-cases (is_some new.value)) [
    | inl known ↦ rw known (
        put-IsTableOf (IsVerified sections) table name _ h (
          defined new.value (existing.references ++ new.references) known w.within (
            All-append (IsTarget sections) existing.references new.references v.targets w.targets)))
    | inr unknown ↦ rw unknown tt
  ]

  resolve-Gives :
      (table : SymbolTable) (name : Name) (existing new : SymbolTableEntry)
      → Good table
      → IsVerified sections existing
      → IsVerified sections new
      → Gives Good (resolve table name existing new)
  unfolding resolve
  resolve-Gives table name existing new h v w =
      step (new.symbol_type == symbol_type_internal) (existing.symbol_type == symbol_type_internal)
        (new.symbol_type == symbol_type_external && existing.symbol_type == symbol_type_public)
        (new.symbol_type == symbol_type_public && existing.symbol_type == symbol_type_external)
        (new.symbol_type == symbol_type_public && existing.symbol_type == symbol_type_public) _ _ _
        _ (rename_new table name new h w) (rename_existing table name existing new h v w)
        (put-IsTableOf (IsVerified sections) table name _ h
          (more_references existing new.references v w.targets))
        (define table name existing new (not (is_some existing.value)) h v w)
    where
      step :
          (a b c d e : Bool) (r s t u : Result SymbolTable)
          → Gives Good r
          → Gives Good s
          → Gives Good t
          → Gives Good u
          → Gives Good (
              if a
              then r
              else if b
              then s
              else if c
              then t
              else if d
              then u
              else if e
              then err (multiple_definitions name)
              else panic)
      step true b c d e r s t u p q k l = p
      step false true c d e r s t u p q k l = q
      step false false true d e r s t u p q k l = k
      step false false false true e r s t u p q k l = l
      step false false false false true r s t u p q k l = tt
      step false false false false false r s t u p q k l = tt

  pub add_symbol-Gives :
      (table : SymbolTable) (name : Name) (new : SymbolTableEntry)
      → Good table
      → IsVerified sections new
      → Gives Good (add_symbol table name new)
  unfolding add_symbol
  add_symbol-Gives table name new h w = step (get table name) refl
    where
      step :
          (o : Option SymbolTableEntry)
          → get table name ≡ o
          → Gives Good (elim o as (λ _. Result SymbolTable) [
            | none ↦ insert_new table name new
            | some existing ↦ resolve table name existing new
          ])
      step none e = insert_new-Gives (IsVerified sections) table name new h w
      step (some existing) e =
          resolve-Gives table name existing new h
            (get-Every (IsVerified sections) table name existing h.1 e) w
