-- ===== src/Silk/Combine.antt =====
-- `parse_and_combine`, Crates/simulatron-silk/src/lib/lib.rs.
use simulatron.Common.{ℕ, ◌+◌, ◌^◌, ◌<◌, ◌≡◌, arith, Bool, List, [], ◌∷◌, length, subst}
use simulatron.Silk.Result.{Result, ok, ◌>>=◌}
use simulatron.Silk.Data.{ObjectFile}
use simulatron.Silk.Parser.Rules.{Gives, Gives-bind}
use simulatron.Silk.Parse.{parse}
use simulatron.Silk.Parse.Sound.{IsParsed, parse-IsParsed}
use simulatron.Silk.Linker.{empty_linker, add_objects}
use simulatron.Silk.Linker.Merge.{add_objects-IsParsed}

module _ (checks : Bool) where
  -- the loop over the inputs
  unfoldable pub combine_into : ObjectFile → List (List ℕ) → Result ObjectFile
  combine_into linker [] = ok linker
  combine_into linker (input ∷ inputs) = do
    parsed ← parse checks input
    linker' ← add_objects checks linker parsed
    combine_into linker' inputs

  unfoldable pub parse_and_combine : List (List ℕ) → Result ObjectFile
  unfolding combine_into
  parse_and_combine inputs = combine_into empty_linker inputs

abbrev pub total_length : List (List ℕ) → ℕ
total_length [] = 0
total_length (input ∷ inputs) = length input + total_length inputs

combine_into-IsParsed :
    (checks : Bool) (n : ℕ) (linker : ObjectFile) (inputs : List (List ℕ))
    → IsParsed n linker
    → n + total_length inputs < 2 ^ 32
    → Gives (IsParsed (n + total_length inputs)) (combine_into checks linker inputs)
unfolding combine_into
combine_into-IsParsed checks n linker [] h small = (h.0, omega (arith, h.1))
combine_into-IsParsed checks n linker (input ∷ inputs) h small =
    let total : n + length input + total_length inputs ≡ n + (length input + total_length inputs) =
      omega arith in
    Gives-bind (IsParsed (length input)) _ (parse checks input) _
      (parse-IsParsed checks input (omega arith))
      (λ parsed p.
        Gives-bind (IsParsed (n + length input)) _ (add_objects checks linker parsed) _
          (add_objects-IsParsed checks n (length input) linker parsed h p (omega arith))
          (λ linker' h'.
            subst (λ (m : ℕ). Gives (IsParsed m) (combine_into checks linker' inputs)) total
              (combine_into-IsParsed checks (n + length input) linker' inputs h' (omega arith))))

-- Whatever bytes the inputs hold, fewer than 2 ^ 32 in all, what parsing and combining them gives, if
-- they are accepted, is a well-formed object file that is no longer than the inputs together.
pub parse_and_combine-IsParsed :
    (checks : Bool) (inputs : List (List ℕ))
    → total_length inputs < 2 ^ 32
    → Gives (IsParsed (total_length inputs)) (parse_and_combine checks inputs)
unfolding parse_and_combine
parse_and_combine-IsParsed checks inputs small =
    let start : 0 + total_length inputs ≡ total_length inputs = omega arith in
    subst (λ (m : ℕ). Gives (IsParsed m) (combine_into checks empty_linker inputs)) start
      (combine_into-IsParsed checks 0 empty_linker inputs
        (record { layout = tt; small = omega arith; verified = tt; distinct = tt }, omega arith)
        (omega arith))
