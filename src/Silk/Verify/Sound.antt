-- ===== src/Silk/Verify/Sound.antt =====
-- What verification establishes (parser.rs).
use simulatron.Common.{
  ℕ, zero, suc, ◌+◌, ◌-◌, ◌^◌, ◌<◌, ◌≡◌, refl, ◌∙◌, arith, Bool, true, false, Option, none, some,
  List, [], ◌∷◌, ltb, ◌==◌, get_elem?, All,
}
use simulatron.Silk.Result.{
  Result, ok, err, panic, Done, unwrap, plus_u32, assert_or_error, nonzero_reference_target,
  address_too_large, ◌>>=◌, ◌>>◌,
}
use simulatron.Silk.Data.{Section, SymbolTableEntry, SymbolTable, find}
use simulatron.Silk.Data.Layout.{IsContiguous, end_of}
use simulatron.Silk.Data.Find.{Contains, IsFound, find-IsFound}
use simulatron.Silk.Object.{IsTyped, IsNodup, Every, Zeros, IsTarget, IsWithin, IsVerified}
use simulatron.Silk.Parser.{contains_key}
use simulatron.Silk.Parser.Rules.{Gives, Gives-bind}
use simulatron.Silk.Verify.{
  try_sub, last_section, check_zeros, file_length, relocate_value, target_section,
  relocate_reference, relocate_references, relocate_and_verify_symbol, relocate_and_verify_symbols,
}

check_zeros-Zeros :
    (bytes : List ℕ) (offset n : ℕ) → Gives (λ _. Zeros bytes offset n) (check_zeros bytes offset n)
unfolding check_zeros
check_zeros-Zeros bytes offset zero = tt
check_zeros-Zeros bytes offset (suc n) =
    step (get_elem? bytes offset) refl (check_zeros bytes (offset + 1) n)
      (check_zeros-Zeros bytes (offset + 1) n)
  where
    step :
        (o : Option ℕ)
        → get_elem? bytes offset ≡ o
        → (later : Result Done) → Gives (λ _. Zeros bytes (offset + 1) n) later
        → Gives
            (λ _. Zeros bytes offset (suc n))
            (unwrap o >>= λ b. assert_or_error (b == 0) nonzero_reference_target >> later)
    step none e later h = tt
    step (some zero) e (ok _) h = (e, h)
    step (some zero) e (err _) h = tt
    step (some zero) e panic h = tt
    step (some (suc b)) e later h =
        let nonzero : (suc b == 0) ≡ false = ground arith in rw nonzero tt

pub Gives-any : {A : Type 0} (r : Result A) → Gives (λ _. Unit {0}) r
Gives-any (ok a) = tt
Gives-any (err e) = tt
Gives-any panic = tt

last_section_lem :
    (a : ℕ) (s : Section) (sections : List Section)
    → IsContiguous a (s ∷ sections)
    → (t : Section) × (last_section (s ∷ sections) ≡ some t)
      × (t.start + t.length ≡ end_of a (s ∷ sections))
unfolding last_section
last_section_lem a s [] h = (s, refl, ground arith)
last_section_lem a s (t ∷ sections) h = last_section_lem (a + s.length) t sections h.2

module _ (checks : Bool) where
  -- The length of the file is where its sections end.
  pub file_length-end_of :
      (sections : List Section)
      → IsContiguous 0 sections
      → end_of 0 sections < 2 ^ 32
      → file_length checks sections ≡ ok (end_of 0 sections)
  unfolding file_length plus_u32
  file_length-end_of [] h small = refl
  file_length-end_of (s ∷ sections) h small =
      let (t, e, at) = last_section_lem 0 s sections h in rw (e, file_length) (ground arith)

  -- An address within the sections is in one of them.
  relocate_value-Gives :
      (start : ℕ) (sections : List Section) (v : Option ℕ) (t : ℕ)
      → IsContiguous 0 sections
      → end_of 0 sections < 2 ^ 32
      → IsTyped t v
      → Gives
          (λ v'. IsTyped t v' × IsWithin (end_of 0 sections) v')
          (relocate_value checks start sections v)
  unfolding relocate_value
  relocate_value-Gives start sections none t h small typed = (typed, tt)
  relocate_value-Gives start sections (some v) t h small typed =
      Gives-bind (λ _. Unit {0}) _ (try_sub v start) _ (Gives-any (try_sub v start))
        (λ r _. rw (file_length-end_of sections h small) (step (ltb r (end_of 0 sections)) r refl))
    where
      step :
          (b : Bool) (r : ℕ)
          → ltb r (end_of 0 sections) ≡ b
          → Gives
              (λ v'. IsTyped t v' × IsWithin (end_of 0 sections) v')
              (assert_or_error b (address_too_large v) >> ok (some r))
      step true r e = (typed, ground arith)
      step false r e = tt

  target_section-Gives :
      (start : ℕ) (sections : List Section) (r : ℕ)
      → IsContiguous 0 sections
      → end_of 0 sections < 2 ^ 32
      → Gives
          (λ s. (i : ℕ) × (get_elem? sections i ≡ some s) × Contains s r)
          (target_section checks start sections r)
  unfolding target_section
  target_section-Gives start sections r h small =
      step (find checks sections r) (find-IsFound checks 0 sections r h small)
    where
      step :
          (found : Result (Option ℕ))
          → IsFound sections r found
          → Gives
              (λ s. (i : ℕ) × (get_elem? sections i ≡ some s) × Contains s r)
              (found >>= λ index. elim index as (λ _. Result Section) [
                | none ↦ plus_u32 checks r start >>= λ original. err (address_too_large original)
                | some i ↦ unwrap (get_elem? sections i)
              ])
      step (ok none) f =
          Gives-bind (λ _. Unit {0}) _ (plus_u32 checks r start) _
            (Gives-any (plus_u32 checks r start)) (λ _ _. tt)
      step (ok (some i)) (s, e, c) = rw e (i, e, c)
      step (err e) f = tt
      step panic f = tt

  relocate_reference-Gives :
      (start : ℕ) (sections : List Section) (r : ℕ)
      → IsContiguous 0 sections
      → end_of 0 sections < 2 ^ 32
      → Gives (IsTarget sections) (relocate_reference checks start sections r)
  unfolding relocate_reference
  relocate_reference-Gives start sections r h small =
      Gives-bind (λ _. Unit {0}) _ (try_sub r start) _ (Gives-any (try_sub r start))
        (λ r' _.
          Gives-bind _ _ (target_section checks start sections r') _
            (target_section-Gives start sections r' h small)
            (λ s (i, e, c).
              Gives-bind _ _ (check_zeros s.bytes (r' - s.start) 4) _
                (check_zeros-Zeros s.bytes (r' - s.start) 4)
                (λ _ z. record { index = i; section = s; found = e; from = c.0; zeros = z })))

module _ (checks : Bool) (start : ℕ) (sections : List Section) (h : IsContiguous 0 sections)
    (small : end_of 0 sections < 2 ^ 32) where
  relocate_references-Gives :
      (rs : List ℕ) → Gives (All (IsTarget sections)) (relocate_references checks start sections rs)
  unfolding relocate_references
  relocate_references-Gives [] = tt
  relocate_references-Gives (r ∷ rs) =
      Gives-bind _ _ (relocate_reference checks start sections r) _
        (relocate_reference-Gives checks start sections r h small)
        (λ r' t.
          Gives-bind _ _ (relocate_references checks start sections rs) _
            (relocate_references-Gives rs) (λ rs' ts. (t, ts)))

  relocate_and_verify_symbol-Gives :
      (entry : SymbolTableEntry)
      → IsTyped entry.symbol_type entry.value
      → Gives (IsVerified sections) (relocate_and_verify_symbol checks start sections entry)
  unfolding relocate_and_verify_symbol
  relocate_and_verify_symbol-Gives entry typed =
      Gives-bind _ _ (relocate_value checks start sections entry.value) _
        (relocate_value-Gives checks start sections entry.value entry.symbol_type h small typed)
        (λ v w.
          Gives-bind _ _ (relocate_references checks start sections entry.references) _
            (relocate_references-Gives entry.references)
            (λ rs ts. record { typed = w.0; within = w.1; targets = ts }))

  -- The symbols keep their names.
  abbrev pub AreVerified : SymbolTable → SymbolTable → Type 0
  AreVerified symbols symbols' =
      Every (IsVerified sections) symbols'
      × ((name : List ℕ) → contains_key symbols' name ≡ contains_key symbols name)
      × IsNodup symbols'

  pub relocate_and_verify_symbols-Gives :
      (symbols : SymbolTable)
      → IsNodup symbols
      → Every (λ entry. IsTyped entry.symbol_type entry.value) symbols
      → Gives (AreVerified symbols) (relocate_and_verify_symbols checks start sections symbols)
  unfolding relocate_and_verify_symbols contains_key
  relocate_and_verify_symbols-Gives [] distinct typed = (tt, λ name. refl, tt)
  relocate_and_verify_symbols-Gives ((name, entry) ∷ symbols) distinct typed =
      Gives-bind _ _ (relocate_and_verify_symbol checks start sections entry) _
        (relocate_and_verify_symbol-Gives entry typed.0)
        (λ entry' v.
          Gives-bind _ _ (relocate_and_verify_symbols checks start sections symbols) _
            (relocate_and_verify_symbols-Gives symbols distinct.1 typed.1)
            (λ symbols' vs.
              ((v, vs.0), λ key. ground (arith, vs.1 key), (vs.1 name ∙ distinct.0, vs.2))))
