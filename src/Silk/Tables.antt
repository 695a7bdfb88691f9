-- ===== src/Silk/Tables.antt =====
-- Symbol tables as lists of entries: names, and a property of every entry.
use simulatron.Common.{◌≡◌, refl, arith, true, false, ◌||◌, [], ◌∷◌, ◌++◌}
use simulatron.Silk.Names.{Name, same_name}
use simulatron.Silk.Data.{SymbolTableEntry, SymbolTable}
use simulatron.Silk.Parser.{contains_key}
use simulatron.Silk.Object.{IsNodup, Every}

pub same_name_comm : (s t : Name) → same_name s t ≡ same_name t s
same_name_comm [] [] = refl
same_name_comm [] (b ∷ t) = refl
same_name_comm (a ∷ s) [] = refl
same_name_comm (a ∷ s) (b ∷ t) = ground (arith, same_name_comm s t)

pub same_name_refl : (s : Name) → same_name s s ≡ true
same_name_refl [] = refl
same_name_refl (a ∷ s) = ground (arith, same_name_refl s)

pub same_name_eq : (s t : Name) → same_name s t ≡ true → s ≡ t
same_name_eq [] [] h = refl
same_name_eq [] (b ∷ t) h = cc
same_name_eq (a ∷ s) [] h = cc
same_name_eq (a ∷ s) (b ∷ t) h = ground (arith, same_name_eq s t)

pub contains_key-append :
    (table table' : SymbolTable) (name : Name)
    → contains_key (table ++ table') name ≡ (contains_key table name || contains_key table' name)
unfolding contains_key
contains_key-append [] table' name = refl
contains_key-append ((k, e) ∷ table) table' name =
    ground (arith, contains_key-append table table' name)

pub append_new-IsNodup :
    (table : SymbolTable) (name : Name) (entry : SymbolTableEntry)
    → IsNodup table
    → contains_key table name ≡ false
    → IsNodup (table ++ (name, entry) ∷ [])
unfolding contains_key
append_new-IsNodup [] name entry h new = (refl, tt)
append_new-IsNodup ((k, e) ∷ table) name entry h new = (
  ground (arith, contains_key-append table ((name, entry) ∷ []) k, same_name_comm k name, h.0, new),
  append_new-IsNodup table name entry h.1 (ground (arith, new)),
)

pub Every-append_new :
    (P : SymbolTableEntry → Type 0) (table : SymbolTable) (name : Name) (entry : SymbolTableEntry)
    → Every P table
    → P entry
    → Every P (table ++ (name, entry) ∷ [])
Every-append_new P [] name entry h p = (p, tt)
Every-append_new P ((k, e) ∷ table) name entry h p =
    (h.0, Every-append_new P table name entry h.1 p)

pub Every-map :
    (P Q : SymbolTableEntry → Type 0) (table : SymbolTable)
    → ((entry : SymbolTableEntry) → P entry → Q entry)
    → Every P table
    → Every Q table
Every-map P Q [] f h = tt
Every-map P Q ((k, e) ∷ table) f h = (f e h.0, Every-map P Q table f h.1)
