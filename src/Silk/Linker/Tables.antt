-- ===== src/Silk/Linker/Tables.antt =====
-- Looking up, replacing and removing symbols (linker.rs).
use simulatron.Common.{
  ◌≡◌, refl, ◌∙◌, arith, Bool, true, false, some, [], ◌∷◌, Bool-cases, inl, inr, if◌then◌else◌,
  subst,
}
use simulatron.Silk.Names.{Name, same_name}
use simulatron.Silk.Data.{SymbolTableEntry, SymbolTable}
use simulatron.Silk.Parser.{contains_key}
use simulatron.Silk.Parser.Rules.{Gives}
use simulatron.Silk.Object.{IsNodup, Every}
use simulatron.Silk.Tables.{append_new-IsNodup, Every-append_new}
use simulatron.Silk.Linker.{get, put, remove, insert_new}

-- a table of entries with a property, and of names that differ
abbrev pub IsTableOf : (SymbolTableEntry → Type 0) → SymbolTable → Type 0
IsTableOf P table = IsNodup table × Every P table

pub get-Every :
    (P : SymbolTableEntry → Type 0) (table : SymbolTable) (name : Name) (entry : SymbolTableEntry)
    → Every P table
    → get table name ≡ some entry
    → P entry
unfolding get
get-Every P [] name entry h e = cc
get-Every P ((key, first) ∷ table) name entry h e =
    step (same_name key name) e (get-Every P table name entry h.1)
  where
    step :
        (b : Bool)
        → (if b then some first else get table name) ≡ some entry
        → (get table name ≡ some entry → P entry)
        → P entry
    step true e later = subst P (cc) h.0
    step false e later = later e

contains_key-put :
    (table : SymbolTable) (name : Name) (new : SymbolTableEntry) (k : Name)
    → contains_key (put table name new) k ≡ contains_key table k
unfolding put contains_key
contains_key-put [] name new k = refl
contains_key-put ((key, first) ∷ table) name new k =
    ground (arith, contains_key-put table name new k)

pub put-IsTableOf :
    (P : SymbolTableEntry → Type 0) (table : SymbolTable) (name : Name) (new : SymbolTableEntry)
    → IsTableOf P table
    → P new
    → IsTableOf P (put table name new)
unfolding put
put-IsTableOf P [] name new h p = (tt, tt)
put-IsTableOf P ((key, first) ∷ table) name new h p = elim (Bool-cases (same_name key name)) [
  | inl here ↦ rw here (h.0, (p, h.1.1))
  | inr away ↦
      let rest = put-IsTableOf P table name new (h.0.1, h.1.1) p in
      rw away ((contains_key-put table name new key ∙ h.0.0, rest.0), (h.1.0, rest.1))
]

contains_key-remove :
    (table : SymbolTable) (name : Name) (k : Name)
    → contains_key table k ≡ false
    → contains_key (remove table name) k ≡ false
unfolding remove contains_key
contains_key-remove [] name k h = refl
contains_key-remove ((key, first) ∷ table) name k h =
    ground (arith, contains_key-remove table name k)

pub remove-IsTableOf :
    (P : SymbolTableEntry → Type 0) (table : SymbolTable) (name : Name)
    → IsTableOf P table
    → IsTableOf P (remove table name)
unfolding remove
remove-IsTableOf P [] name h = (tt, tt)
remove-IsTableOf P ((key, first) ∷ table) name h = elim (Bool-cases (same_name key name)) [
  | inl here ↦ rw here (h.0.1, h.1.1)
  | inr away ↦
      let rest = remove-IsTableOf P table name (h.0.1, h.1.1) in
      rw away ((contains_key-remove table name key h.0.0, rest.0), (h.1.0, rest.1))
]

pub insert_new-Gives :
    (P : SymbolTableEntry → Type 0) (table : SymbolTable) (name : Name) (entry : SymbolTableEntry)
    → IsTableOf P table
    → P entry
    → Gives (IsTableOf P) (insert_new table name entry)
unfolding insert_new
insert_new-Gives P table name entry h p = elim (Bool-cases (contains_key table name)) [
  | inl old ↦ rw old tt
  | inr new ↦
      rw new
        (append_new-IsNodup table name entry h.0 new, Every-append_new P table name entry h.1 p)
]
