-- ===== src/Silk/Parse/Sound.antt =====
-- Every object file that the parser accepts can be linked (parser.rs).
use simulatron.Common.{ℕ, ◌-◌, ◌^◌, ◌<◌, ◌≤◌, ◌≡◌, arith, Bool, List, [], length, subst}
use simulatron.Silk.Result
use simulatron.Silk.Result.{ok, err, panic}
use simulatron.Silk.Data.{Section, SymbolTable, ObjectFile}
use simulatron.Silk.Data.Layout.{IsContiguous, end_of}
use simulatron.Silk.Object.{IsObject}
use simulatron.Silk.Parser.{
  Parser, Parse, and_then, pure, lift, read_buffer, read_int, bytes_so_far, parse_symbol_table,
  parse_section_headers, parse_sections, ◌>>=◌, ◌>>◌, assert_or_error,
}
use simulatron.Silk.Parser.Rules.{Gives, Ends}
use simulatron.Silk.Parser.Sound.{
  IsAt, IsTable, Laid, read_buffer-Ends, read_int-Ends, parse_symbol_table-Ends,
  parse_section_headers-Ends, parse_sections-Ends,
}
use simulatron.Silk.Verify.{relocate_and_verify_symbols}
use simulatron.Silk.Verify.Sound.{AreVerified, relocate_and_verify_symbols-Gives}
use simulatron.Silk.Parse.{run, parse}

-- A parser's result, which may also be a panic.
abbrev Yields : {A : Type 0} → (A → Type 0) → Result.Result (A × Parser) → Type 0
Yields Q (ok (a, p)) = Q a
Yields Q (err e) = Unit
Yields Q panic = Unit

Yields-bind :
    {A B : Type 0} (P : A → Parser → Type 0) (Q : B → Type 0) (r : Result.Result (A × Parser))
    (f : A → Parse B)
    → Ends P r
    → ((a : A) (p : Parser) → P a p → Yields Q (f a p))
    → Yields Q (and_then r f)
Yields-bind P Q (ok (a, p)) f h k = k a p h
Yields-bind P Q (err e) f h k = tt
Yields-bind P Q panic f h k = absurd h

assert-Yields :
    {B : Type 0} (Q : B → Type 0) (b : Bool) (e : Result.OfError) (k : Parse B) (p : Parser)
    → Yields Q (k p)
    → Yields Q ((assert_or_error b e >> k) p)
unfolding assert_or_error ◌>>=◌ ◌>>◌
assert-Yields Q Bool.true e k p h = h
assert-Yields Q Bool.false e k p h = tt

-- A well-formed object file whose sections are no longer than a stream.
abbrev pub IsParsed : ℕ → ObjectFile → Type 0
IsParsed n of = IsObject of × (end_of 0 of.sections ≤ n)

module _ (checks : Bool) (n : ℕ) (small : n < 2 ^ 32) where
  verified :
      (start : ℕ) (symbols : SymbolTable) (sections : List Section) (p p' : Parser)
      → IsTable checks n small symbols p
      → Laid checks n small start start sections p'
      → Yields (IsParsed n) (
          and_then
            (lift (relocate_and_verify_symbols checks start sections symbols) p')
            (λ symbols'. pure (record { symbols = symbols'; sections = sections })))
  unfolding lift pure
  verified start symbols sections p p' t l =
      let zero_start : start - start ≡ 0 = omega arith in
      let layout : IsContiguous 0 sections = subst (λ a. IsContiguous a sections) zero_start l.1 in
      let ends : end_of 0 sections < 2 ^ 32 =
        subst (λ a. end_of a sections < 2 ^ 32) zero_start (omega (arith, l.0, l.2)) in
      let bound : end_of 0 sections ≤ n =
        subst (λ a. end_of a sections ≤ n) zero_start (omega (arith, l.0, l.2)) in
      step layout ends bound (relocate_and_verify_symbols checks start sections symbols)
        (relocate_and_verify_symbols-Gives checks start sections layout ends symbols t.1 t.2)
    where
      step :
          (layout : IsContiguous 0 sections) (ends : end_of 0 sections < 2 ^ 32)
          (bound : end_of 0 sections ≤ n) (r : Result.Result SymbolTable)
          → Gives (AreVerified checks start sections layout ends symbols) r
          → Yields (IsParsed n) (
              and_then
                (Result.◌>>=◌ r (λ a. ok (a, p')))
                (λ symbols'. pure (record { symbols = symbols'; sections = sections })))
      step layout ends bound (ok symbols') v =
          (record { layout = layout; small = ends; verified = v.0; distinct = v.2 }, bound)
      step layout ends bound (err e) v = tt
      step layout ends bound panic v = tt

  run-Yields : (p : Parser) → IsAt n p → Yields (IsParsed n) (run checks p)
  unfolding run ◌>>=◌ ◌>>◌ bytes_so_far pure lift
  run-Yields p h =
      let Q : ObjectFile → Type 0 = IsParsed n in
      Yields-bind _ Q (read_buffer checks 6 p) _ (read_buffer-Ends checks n small 6 p h)
        (λ magic p1 h1. assert-Yields Q _ _ _ p1 (
          Yields-bind _ Q (read_int checks 2 p1) _ (read_int-Ends checks n small 2 p1 h1.1)
            (λ version p2 h2. assert-Yields Q _ _ _ p2 (
              Yields-bind _ Q (read_int checks 4 p2) _ (read_int-Ends checks n small 4 p2 h2)
                (λ k p3 h3.
                  Yields-bind _ Q (read_int checks 4 p3) _ (read_int-Ends checks n small 4 p3 h3)
                    (λ m p4 h4.
                      Yields-bind _ Q (parse_symbol_table checks k [] p4) _
                        (parse_symbol_table-Ends checks n small k [] p4 (h4, tt, tt))
                        (λ symbols p5 h5.
                          Yields-bind _ Q (parse_section_headers checks m p5) _
                            (parse_section_headers-Ends checks n small m p5 h5.0)
                            (λ headers p6 h6.
                              Yields-bind _ Q (parse_sections checks headers p6.bytes_read p6) _
                                (parse_sections-Ends checks n small headers p6.bytes_read p6 h6
                                  (omega arith))
                                (λ sections p7 h7.
                                  verified p6.bytes_read symbols sections p5 p7 h5 h7)))))))))

done-Gives :
    (Q : ObjectFile → Type 0) (r : Result.Result (ObjectFile × Parser))
    → Yields Q r
    → Gives Q (Result.◌>>=◌ r (λ (object, _). Result.ok object))
done-Gives Q (ok (object, p)) h = h
done-Gives Q (err e) h = tt
done-Gives Q panic h = tt

-- What the parser accepts from a stream of fewer than 2 ^ 32 bytes, with or without overflow checks,
-- is a well-formed object file. Its sections follow one another from 0 on, and are together no longer
-- than the stream. No name occurs twice. A symbol is internal or public and has a value before the end
-- of the sections, or is external and has none. Each reference points at four zero bytes within one
-- section.
pub parse-IsParsed :
    (checks : Bool) (source : List ℕ)
    → length source < 2 ^ 32
    → Gives (IsParsed (length source)) (parse checks source)
unfolding parse
parse-IsParsed checks source small =
    done-Gives (IsParsed (length source)) (run checks (record { source = source; bytes_read = 0 }))
      (run-Yields checks (length source) small (record { source = source; bytes_read = 0 })
        (omega arith))
