-- ===== src/Silk/Linker/Clash.antt =====
-- What becomes of two symbols of one name, neither of them internal (linker.rs).
use simulatron.Common.{
  ℕ, ◌≡◌, ◌≢◌, refl, sym, ap, arith, false, Option, none, some, List, [], ◌∷◌, ◌++◌, Bool-cases,
  inl, inr, if◌then◌else◌, subst,
}
use simulatron.Silk.Names.{Name, same_name}
use simulatron.Silk.Result.{Result, ok, err, panic, multiple_definitions}
use simulatron.Silk.Data.{
  SymbolTableEntry, SymbolTable, symbol_type_internal, symbol_type_public, symbol_type_external,
}
use simulatron.Silk.Object.{IsTyped}
use simulatron.Silk.Tables.{same_name_eq}
use simulatron.Silk.Linker.{get, put, insert_new, resolve, add_symbol}

get-put_self :
    (table : SymbolTable) (name : Name) (old new : SymbolTableEntry)
    → get table name ≡ some old
    → get (put table name new) name ≡ some new
unfolding get put
get-put_self [] name old new e = cc
get-put_self ((key, first) ∷ table) name old new e = ground (arith, get-put_self table name old new)

get-put_other :
    (table : SymbolTable) (name : Name) (new : SymbolTableEntry) (k : Name)
    → same_name name k ≡ false
    → get (put table name new) k ≡ get table k
unfolding get put
get-put_other [] name new k ne = refl
get-put_other ((key, first) ∷ table) name new k ne = elim (Bool-cases (same_name key name)) [
  | inl here ↦
      let other : same_name key k ≡ false =
        subst (λ n. same_name n k ≡ false) (sym (same_name_eq key name here)) ne in
      rw here (rw other refl)
  | inr away ↦
      rw away
        (ap (λ o. if same_name key k then some first else o) (get-put_other table name new k ne))
]

-- the one of two symbols that has the value
abbrev pub value_of : Option ℕ → Option ℕ → Option ℕ
value_of (some v) other = some v
value_of none other = other

-- the symbol that stands for both
abbrev pub joined : SymbolTableEntry → SymbolTableEntry → SymbolTableEntry
joined existing new = record {
  symbol_type = symbol_type_public;
  value = value_of existing.value new.value;
  references = existing.references ++ new.references;
}

-- The outcome of adding a symbol to a table that has one of its name.
abbrev pub Resolves :
    SymbolTable → Name → SymbolTableEntry → SymbolTableEntry → Result SymbolTable → Type 0
Resolves table name existing new (ok table') =
    (existing.symbol_type ≢ new.symbol_type)
    × (get table' name ≡ some (joined existing new))
    × ((k : Name) → same_name name k ≡ false → get table' k ≡ get table k)
Resolves table name existing new (err e) =
    (existing.symbol_type ≡ symbol_type_public)
    × (new.symbol_type ≡ symbol_type_public)
    × (e ≡ multiple_definitions name)
Resolves table name existing new panic =
    (existing.symbol_type ≡ symbol_type_external) × (new.symbol_type ≡ symbol_type_external)

module _ (table : SymbolTable) (name : Name) (er nr : List ℕ) where
  abbrev entry : ℕ → Option ℕ → List ℕ → SymbolTableEntry
  entry s v references = record { symbol_type = s; value = v; references = references }

  abbrev Claim : ℕ → ℕ → Option ℕ → Option ℕ → Type 0
  Claim s t v w =
      get table name ≡ some (entry s v er)
      → Resolves table name (entry s v er) (entry t w nr)
          (resolve table name (entry s v er) (entry t w nr))

  is_public : (s v : ℕ) → IsTyped s (some v) → s ≢ symbol_type_internal → s ≡ symbol_type_public
  is_public s v (inl internal) outer = absurd (outer internal)
  is_public s v (inr public) outer = public

  replaced :
      (s t : ℕ) (v w : Option ℕ)
      → s ≢ t
      → get table name ≡ some (entry s v er)
      → Resolves table name
          (entry s v er)
          (entry t w nr)
          (ok (put table name (joined (entry s v er) (entry t w nr))))
  replaced s t v w differ e = (
    differ,
    get-put_self table name (entry s v er) (joined (entry s v er) (entry t w nr)) e,
    λ k ne. get-put_other table name (joined (entry s v er) (entry t w nr)) k ne,
  )

  outcome :
      (s t : ℕ) (v w : Option ℕ)
      → IsTyped s v
      → IsTyped t w
      → s ≢ symbol_type_internal
      → t ≢ symbol_type_internal
      → Claim s t v w
  unfolding resolve
  outcome s t none none h k i j =
      subst (λ (a : ℕ). Claim a t none none) (sym h)
        (subst (λ (b : ℕ). Claim symbol_type_external b none none) (sym k) (λ e. (refl, refl)))
  outcome s t none (some w) h k i j =
      subst (λ (a : ℕ). Claim a t none (some w)) (sym h)
        (subst (λ (b : ℕ). Claim symbol_type_external b none (some w)) (sym (is_public t w k j))
          (replaced symbol_type_external symbol_type_public none (some w) (λ same. omega arith)))
  outcome s t (some v) none h k i j =
      subst (λ (a : ℕ). Claim a t (some v) none) (sym (is_public s v h i))
        (subst (λ (b : ℕ). Claim symbol_type_public b (some v) none) (sym k)
          (replaced symbol_type_public symbol_type_external (some v) none (λ same. omega arith)))
  outcome s t (some v) (some w) h k i j =
      subst (λ (a : ℕ). Claim a t (some v) (some w)) (sym (is_public s v h i))
        (subst (λ (b : ℕ). Claim symbol_type_public b (some v) (some w)) (sym (is_public t w k j))
          (λ e. (refl, refl, refl)))

-- Adding a symbol under the name of another, where neither is internal: a public and an external
-- symbol, in either order, become one public symbol with the value of the one and the references of
-- both, and no other name is affected. Two public symbols are an error that names them. Two external
-- symbols, which both files may well have, are a panic.
pub add_symbol-Resolves :
    (table : SymbolTable) (name : Name) (existing new : SymbolTableEntry)
    → get table name ≡ some existing
    → IsTyped existing.symbol_type existing.value
    → IsTyped new.symbol_type new.value
    → existing.symbol_type ≢ symbol_type_internal
    → new.symbol_type ≢ symbol_type_internal
    → Resolves table name existing new (add_symbol table name new)
unfolding add_symbol
add_symbol-Resolves table name existing new e typed typed' outer outer' =
    subst
      (λ (o : Option SymbolTableEntry).
        Resolves table name existing new (elim o as (λ _. Result SymbolTable) [
          | none ↦ insert_new table name new
          | some old ↦ resolve table name old new
        ]))
      (sym e)
      (outcome table name existing.references new.references existing.symbol_type new.symbol_type
        existing.value new.value typed typed' outer outer' e)
