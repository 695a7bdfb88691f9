-- ===== src/Silk/Parser/Sound.antt =====
-- What the parser's readers give (parser.rs): no panic, and sections that lie one after another.
use simulatron.Common.{
  ℕ, zero, suc, ◌+◌, ◌-◌, ◌^◌, ◌<◌, ◌≤◌, ◌≡◌, refl, ap, ◌∙◌, sym, arith, Bool, true, false, Option,
  none, some, List, [], ◌∷◌, ◌++◌, ltb, leb, ◌==◌, if◌then◌else◌, length, subst,
}
use simulatron.Silk.Result
use simulatron.Silk.Result.{
  OfError, ok, err, panic, Done, plus_u32, minus_u32, io_error, unexpected_eof, invalid_symbol_name,
  unprintable_symbol_name,
}
use simulatron.Silk.Names.{Name, all_name_bytes, utf8_from, validate_symbol_name}
use simulatron.Silk.Data.{
  symbol_type_external, symbol_type_name, Section, SymbolTableEntry, SymbolTable,
}
use simulatron.Silk.Data.Layout.{IsContiguous, end_of}
use simulatron.Silk.Parser.{
  SectionHeader, Parser, Parse, and_then, pure, lift, assert_or_error, take_exact, contains_key,
  bytes_so_far, read_buffer, read_int, parse_references, parse_symbol, parse_symbol_table,
  parse_section_headers, parse_sections, ◌>>=◌, ◌>>◌,
}
use simulatron.Silk.Parser.Rules.{Ends, Ends-bind, Surely}
use simulatron.Silk.Object.{IsTyped, IsNodup, Every}
use simulatron.Silk.Tables.{append_new-IsNodup, Every-append_new}

-- What has been read and what is left make up the `n` bytes of the stream.
abbrev pub IsAt : ℕ → Parser → Type 0
IsAt n p = p.bytes_read + length p.source ≡ n

-- what `take_exact` splits off
abbrev IsSplit : ℕ → List ℕ → Option (List ℕ × List ℕ) → Type 0
IsSplit n source none = length source < n
IsSplit n source (some (bytes, rest)) = (length bytes ≡ n) × (n + length rest ≡ length source)

take_exact-IsSplit : (n : ℕ) (source : List ℕ) → IsSplit n source (take_exact n source)
unfolding take_exact
take_exact-IsSplit zero source = omega arith
take_exact-IsSplit (suc n) [] = omega arith
take_exact-IsSplit (suc n) (b ∷ source) = step (take_exact n source) (take_exact-IsSplit n source)
  where
    step :
        (o : Option (List ℕ × List ℕ))
        → IsSplit n source o
        → IsSplit (suc n) (b ∷ source) (elim o as (λ _. Option (List ℕ × List ℕ)) [
          | none ↦ none
          | some (bytes, rest) ↦ some (b ∷ bytes, rest)
        ])
    step none h = omega arith
    step (some (bytes, rest)) h = omega arith

module _ (checks : Bool) (n : ℕ) (small : n < 2 ^ 32) where
  -- after `k` bytes
  abbrev IsRead : {A : Type 0} → ℕ → Parser → A → Parser → Type 0
  IsRead k p a p' = IsAt n p' × (p'.bytes_read ≡ p.bytes_read + k)

  pub read_buffer-Ends :
      (k : ℕ) (p : Parser)
      → IsAt n p
      → Ends
          (λ bytes p'. (length bytes ≡ k) × IsAt n p' × (p'.bytes_read ≡ p.bytes_read + k))
          (read_buffer checks k p)
  unfolding read_buffer plus_u32
  read_buffer-Ends k p h = step (take_exact k p.source) (take_exact-IsSplit k p.source)
    where
      step :
          (o : Option (List ℕ × List ℕ))
          → IsSplit k p.source o
          → Ends
              (λ bytes p'. (length bytes ≡ k) × IsAt n p' × (p'.bytes_read ≡ p.bytes_read + k))
              (elim o as (λ _. Result.Result (List ℕ × Parser)) [
                | none ↦ err (io_error unexpected_eof)
                | some (bytes, rest) ↦
                    Result.◌>>=◌
                      (plus_u32 checks p.bytes_read k)
                      (λ bytes_read. ok (bytes, record { source = rest; bytes_read = bytes_read }))
              ])
      step none s = tt
      step (some (bytes, rest)) s =
          let e : ltb (p.bytes_read + k) (2 ^ 32) ≡ true = ground arith in
          rw e (s.0, omega arith, refl)

  -- the state stays in step with the stream
  abbrev pub Keeps : {A : Type 0} → A → Parser → Type 0
  Keeps a p = IsAt n p

  pub read_int-Ends : (k : ℕ) (p : Parser) → IsAt n p → Ends Keeps (read_int checks k p)
  unfolding read_int pure ◌>>=◌
  read_int-Ends k p h =
      Ends-bind _ Keeps (read_buffer checks k p) _ (read_buffer-Ends k p h) (λ bytes p' r. r.1)

  parse_references-Ends : (k : ℕ) (p : Parser) → IsAt n p → Ends Keeps (parse_references checks k p)
  unfolding parse_references pure ◌>>=◌
  parse_references-Ends zero p h = h
  parse_references-Ends (suc k) p h =
      Ends-bind _ Keeps (read_int checks 4 p) _ (read_int-Ends 4 p h) (λ v p1 h1.
        Ends-bind _ Keeps (parse_references checks k p1) _ (parse_references-Ends k p1 h1)
          (λ vs p2 h2. h2))

  assert-Ends :
      {B : Type 0} (Q : B → Parser → Type 0) (b : Bool) (e : OfError) (k : Parse B) (p : Parser)
      → (b ≡ true → Ends Q (k p))
      → Ends Q ((assert_or_error b e >> k) p)
  unfolding assert_or_error ◌>>=◌ ◌>>◌
  assert-Ends Q true e k p h = h refl
  assert-Ends Q false e k p h = tt

  pub parse_section_headers-Ends :
      (k : ℕ) (p : Parser) → IsAt n p → Ends Keeps (parse_section_headers checks k p)
  unfolding parse_section_headers pure ◌>>=◌
  parse_section_headers-Ends zero p h = h
  parse_section_headers-Ends (suc k) p h =
      Ends-bind _ Keeps (read_int checks 1 p) _ (read_int-Ends 1 p h) (λ flags p1 h1.
        Ends-bind _ Keeps (read_int checks 4 p1) _ (read_int-Ends 4 p1 h1) (λ length p2 h2.
          Ends-bind _ Keeps (parse_section_headers checks k p2) _
            (parse_section_headers-Ends k p2 h2) (λ headers p3 h3. h3)))

  -- The sections lie one after another, from where the first was read.
  abbrev pub Laid : ℕ → ℕ → List Section → Parser → Type 0
  Laid start from sections p =
      IsAt n p
      × IsContiguous (from - start) sections
      × (end_of (from - start) sections + start ≡ p.bytes_read)

  pub parse_sections-Ends :
      (headers : List SectionHeader) (start : ℕ) (p : Parser)
      → IsAt n p
      → start ≤ p.bytes_read
      → Ends (Laid start p.bytes_read) (parse_sections checks headers start p)
  unfolding parse_sections bytes_so_far pure lift minus_u32 ◌>>=◌
  parse_sections-Ends [] start p h o = (h, tt, omega arith)
  parse_sections-Ends (header ∷ headers) start p h o =
      let e : leb start p.bytes_read ≡ true = ground arith in
      Ends-bind _ (Laid start p.bytes_read) (read_buffer checks header.length p) _
        (read_buffer-Ends header.length p h)
        (λ bytes p1 r1. rw e (
          Ends-bind _ (Laid start p.bytes_read) (parse_sections checks headers start p1) _
            (parse_sections-Ends headers start p1 r1.1 (omega arith))
            (λ sections p2 h2.
              let from : p1.bytes_read - start ≡ p.bytes_read - start + header.length =
                omega (arith, r1.2) in
              (
                h2.0,
                (refl, r1.0, subst (λ a. IsContiguous a sections) from h2.1),
                ap (λ (a : ℕ). end_of a sections + start) (sym from) ∙ h2.2,
              ))))

-- a symbol's type is one of three
symbol_type_name-cases :
    (t v : ℕ)
    → symbol_type_name t ≡ ok tt
    → IsTyped t (if t == symbol_type_external then none else some v)
unfolding symbol_type_name
symbol_type_name-cases t v h = ground arith

module _ (checks : Bool) (n : ℕ) (small : n < 2 ^ 32) where
  lift-Ends :
      {A B : Type 0} (P : A → Type 0) (Q : B → Parser → Type 0) (r : Result.Result A)
      (k : A → Parse B) (p : Parser)
      → Surely P r
      → ((a : A) → P a → r ≡ ok a → Ends Q (k a p))
      → Ends Q (and_then (lift r p) k)
  unfolding lift
  lift-Ends P Q (ok a) k p h q = q a h refl
  lift-Ends P Q (err e) k p h q = tt
  lift-Ends P Q panic k p h q = h

  -- a symbol that the table does not have, with a type and a value that fit
  abbrev pub IsNew : SymbolTable → Name × SymbolTableEntry → Parser → Type 0
  IsNew table (name, entry) p =
      IsAt n p × (contains_key table name ≡ false) × IsTyped entry.symbol_type entry.value

  Surely-tests :
      (b c : Bool) (name : Name) (d e : OfError)
      → Surely (λ _. Unit {0}) (if b then ok name else if c then err d else err e)
  Surely-tests true c name d e = tt
  Surely-tests false true name d e = tt
  Surely-tests false false name d e = tt

  validate_symbol_name-Surely : (name : Name) → Surely (λ _. Unit) (validate_symbol_name name)
  unfolding validate_symbol_name
  validate_symbol_name-Surely name =
      Surely-tests (all_name_bytes name) (utf8_from 0 0 0 name) name (invalid_symbol_name name)
        unprintable_symbol_name

  symbol_type_name-Surely : (t : ℕ) → Surely (λ _. Unit) (symbol_type_name t)
  unfolding symbol_type_name
  symbol_type_name-Surely t = ground arith

  parse_symbol-Ends :
      (table : SymbolTable) (p : Parser)
      → IsAt n p
      → Ends (IsNew table) (parse_symbol checks table p)
  unfolding parse_symbol pure ◌>>=◌
  parse_symbol-Ends table p h =
      Ends-bind _ (IsNew table) (read_int checks 1 p) _ (read_int-Ends checks n small 1 p h)
        (λ t p1 h1.
          lift-Ends (λ _. Unit {0}) (IsNew table) (symbol_type_name t) _ p1
            (symbol_type_name-Surely t)
            (λ _ _ typed.
              Ends-bind _ (IsNew table) (read_int checks 4 p1) _
                (read_int-Ends checks n small 4 p1 h1)
                (λ v p2 h2.
                  Ends-bind _ (IsNew table) (read_int checks 1 p2) _
                    (read_int-Ends checks n small 1 p2 h2)
                    (λ l p3 h3. assert-Ends checks n small (IsNew table) _ _ _ p3 (λ _.
                      Ends-bind _ (IsNew table) (read_buffer checks l p3) _
                        (read_buffer-Ends checks n small l p3 h3)
                        (λ buf p4 r4.
                          lift-Ends (λ _. Unit {0}) (IsNew table) (validate_symbol_name buf) _ p4
                            (validate_symbol_name-Surely buf)
                            (λ name _ _. assert-Ends checks n small (IsNew table) _ _ _ p4 (λ new.
                              Ends-bind _ (IsNew table) (read_int checks 4 p4) _
                                (read_int-Ends checks n small 4 p4 r4.1)
                                (λ k p5 h5.
                                  Ends-bind _ (IsNew table) (parse_references checks k p5) _
                                    (parse_references-Ends checks n small k p5 h5)
                                    (λ refs p6 h6. (
                                      h6,
                                      ground (arith, new),
                                      symbol_type_name-cases t v typed,
                                    )))))))))))

  abbrev pub HasType : SymbolTableEntry → Type 0
  HasType entry = IsTyped entry.symbol_type entry.value

  abbrev pub IsTable : SymbolTable → Parser → Type 0
  IsTable table p = IsAt n p × IsNodup table × Every HasType table

  pub parse_symbol_table-Ends :
      (k : ℕ) (table : SymbolTable) (p : Parser)
      → IsTable table p
      → Ends IsTable (parse_symbol_table checks k table p)
  unfolding parse_symbol_table pure ◌>>=◌
  parse_symbol_table-Ends zero table p h = h
  parse_symbol_table-Ends (suc k) table p h =
      Ends-bind (IsNew table) IsTable (parse_symbol checks table p) _
        (parse_symbol-Ends table p h.0)
        (λ (name, entry) p1 new. parse_symbol_table-Ends k (table ++ (name, entry) ∷ []) p1 (
          new.0,
          append_new-IsNodup table name entry h.1 new.1,
          Every-append_new HasType table name entry h.2 new.2,
        ))
