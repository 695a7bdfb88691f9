-- ===== src/Cpu/Rotcarry/RoundTrip.antt =====
-- The two rotations through the carry undo each other (cpu/rotcarry.rs).
use simulatron.Common.{
  ℕ, ◌+◌, ◌-◌, ◌*◌, ◌/◌, ◌%◌, ◌^◌, ◌<◌, ◌≡◌, refl, ap, ◌∙◌, arith, bit_and, bit_or, Bool, not, ltb,
  if◌then◌else◌,
}
use simulatron.Common.Int.{signed, pos, ◌<ℤ◌}
use simulatron.Common.Bits.{and_low, or_fields, or_comm}
use simulatron.Cpu.Values.{Width, w8, w16, w32, bits}
use simulatron.Cpu.Rotcarry.{carry_bit, rcl, rcr}

-- the top bit of a value
abbrev top : Width → ℕ → Bool
top w x = not (ltb x (2 ^ (bits w - 1)))

sign-top : (w : Width) (x : ℕ) → (signed (bits w) x <ℤ pos 0) ≡ top w x
unfolding signed
sign-top w8 x = ground arith
sign-top w16 x = ground arith
sign-top w32 x = ground arith

low-odd : (x : ℕ) → ltb 0 (bit_and x 1) ≡ ltb 0 (x % 2)
low-odd x = ap (ltb 0) (and_low 1 x)

left_sum :
    (w : Width) (x : ℕ) (carry : Bool)
    → bit_or (x * 2 % 2 ^ bits w) (carry_bit carry) ≡ x * 2 % 2 ^ bits w + carry_bit carry
left_sum w8 x carry =
    ap (λ (t : ℕ). bit_or t (carry_bit carry)) (omega arith)
    ∙ or_fields 1 (x % 2 ^ 7) (carry_bit carry) (ground arith)
    ∙ omega arith
left_sum w16 x carry =
    ap (λ (t : ℕ). bit_or t (carry_bit carry)) (omega arith)
    ∙ or_fields 1 (x % 2 ^ 15) (carry_bit carry) (ground arith)
    ∙ omega arith
left_sum w32 x carry =
    ap (λ (t : ℕ). bit_or t (carry_bit carry)) (omega arith)
    ∙ or_fields 1 (x % 2 ^ 31) (carry_bit carry) (ground arith)
    ∙ omega arith

abbrev top_bit : Width → Bool → ℕ
top_bit w carry = if carry then 2 ^ (bits w - 1) else 0

right_sum :
    (w : Width) (x : ℕ) (carry : Bool)
    → x < 2 ^ bits w
    → bit_or (x / 2) (top_bit w carry) ≡ x / 2 + top_bit w carry
right_sum w8 x carry h =
    or_comm (x / 2) _
    ∙ ap (λ (t : ℕ). bit_or t (x / 2)) (ground arith)
    ∙ or_fields 7 (carry_bit carry) (x / 2) (omega arith)
    ∙ ground arith
right_sum w16 x carry h =
    or_comm (x / 2) _
    ∙ ap (λ (t : ℕ). bit_or t (x / 2)) (ground arith)
    ∙ or_fields 15 (carry_bit carry) (x / 2) (omega arith)
    ∙ ground arith
right_sum w32 x carry h =
    or_comm (x / 2) _
    ∙ ap (λ (t : ℕ). bit_or t (x / 2)) (ground arith)
    ∙ or_fields 31 (carry_bit carry) (x / 2) (omega arith)
    ∙ ground arith

-- both rotations without bit operations
rcl_lem :
    (w : Width) (x : ℕ) (carry : Bool)
    → rcl w x carry ≡ (x * 2 % 2 ^ bits w + carry_bit carry, top w x)
unfolding rcl
rcl_lem w x carry = rw (left_sum, sign-top) refl

rcr_lem :
    (w : Width) (x : ℕ) (carry : Bool)
    → x < 2 ^ bits w
    → rcr w x carry ≡ (x / 2 + top_bit w carry, ltb 0 (x % 2))
unfolding rcr
rcr_lem w x carry h = rw (right_sum w x carry h, low-odd) refl

there_value :
    (w : Width) (x : ℕ) (carry : Bool)
    → x < 2 ^ bits w
    → (x * 2 % 2 ^ bits w + carry_bit carry) / 2 + top_bit w (top w x) ≡ x
there_value w8 x carry h = ground arith
there_value w16 x carry h = ground arith
there_value w32 x carry h = ground arith

there_carry :
    (w : Width) (x : ℕ) (carry : Bool) → ltb 0 ((x * 2 % 2 ^ bits w + carry_bit carry) % 2) ≡ carry
there_carry w8 x carry = ground arith
there_carry w16 x carry = ground arith
there_carry w32 x carry = ground arith

left_bound : (w : Width) (x : ℕ) (carry : Bool) → x * 2 % 2 ^ bits w + carry_bit carry < 2 ^ bits w
left_bound w8 x carry = ground arith
left_bound w16 x carry = ground arith
left_bound w32 x carry = ground arith

back_value :
    (w : Width) (x : ℕ) (carry : Bool)
    → x < 2 ^ bits w
    → (x / 2 + top_bit w carry) * 2 % 2 ^ bits w + carry_bit (ltb 0 (x % 2)) ≡ x
back_value w8 x carry h = ground arith
back_value w16 x carry h = ground arith
back_value w32 x carry h = ground arith

back_carry :
    (w : Width) (x : ℕ) (carry : Bool) → x < 2 ^ bits w → top w (x / 2 + top_bit w carry) ≡ carry
back_carry w8 x carry h = ground arith
back_carry w16 x carry h = ground arith
back_carry w32 x carry h = ground arith

-- For each integer width and every value of that width, rotating left through the carry and then
-- right with the carry that came out gives back the value and the carry, and so does rotating
-- right and then left.
pub rcl-rcr :
    (w : Width) (x : ℕ) (carry : Bool)
    → x < 2 ^ bits w
    → (rcr w (rcl w x carry).0 (rcl w x carry).1 ≡ (x, carry))
      × (rcl w (rcr w x carry).0 (rcr w x carry).1 ≡ (x, carry))
rcl-rcr w x carry h = (
  rw
      (
        rcl_lem w x carry,
        rcr_lem w _ (top w x) (left_bound w x carry),
        there_value w x carry h,
        there_carry w x carry,
      )
      refl,
  rw (rcr_lem w x carry h, rcl_lem, back_value w x carry h, back_carry w x carry h) refl,
)
