-- ===== src/Exec.antt =====
-- `CPUResult` (cpu.rs) and the effects of the code that returns it: a state that is kept when the
-- code returns early with `?`, a thread that panics, and a `recv` that blocks.
pub mod Keeps
use simulatron.Common.{ℕ, ◌+◌, ◌*◌, ◌%◌, ◌^◌, Bool, Option, none, some, ltb, if◌then◌else◌, ◌≡◌, ap}

pub data CpuError : Type 0 where
  try_again_error fatal_error : CpuError

-- How a call ends, with the state that it leaves. `blocked` waits on an empty channel.
pub data Outcome {ℓ} (S A : Type ℓ) : Type ℓ where
  ok : A → S → Outcome S A
  err : CpuError → S → Outcome S A
  blocked : S → Outcome S A
  panic : Outcome S A

abbrev pub Exec {ℓ} : Type ℓ → Type ℓ → Type ℓ
Exec S A = S → Outcome S A

abbrev pub Done : Type 0
Done = Unit {0}

module _ {ℓ} {S A : Type ℓ} where
  unfoldable pub pure : A → Exec S A
  pure a s = ok a s

  unfoldable pub raise : CpuError → Exec S A
  raise e s = err e s

  unfoldable pub crash : Exec S A
  crash s = panic

  unfoldable pub block : Exec S A
  block s = blocked s

  -- a value read off the state
  unfoldable pub gets : (S → A) → Exec S A
  gets f s = ok (f s) s

  -- `unwrap`, and an index that Rust checks
  unfoldable pub unwrap : Option A → Exec S A
  unfolding pure crash
  unwrap none = crash
  unwrap (some a) = pure a

-- What a call that ended so passes on.
module _ {ℓ} {S A : Type ℓ} where
  abbrev pub fatally : Outcome S A → Outcome S A
  fatally (ok a s) = ok a s
  fatally (err e s) = err fatal_error s
  fatally (blocked s) = blocked s
  fatally panic = panic

  -- `$op.or(Err(CPUError::FatalError))?`, the macro `critical!`
  unfoldable pub critical : Exec S A → Exec S A
  critical m s = fatally (m s)

module _ {S A : Type 0} where
  -- the error `e`, once the undoing has ended; its failure is an `expect` that panics
  abbrev pub undone : CpuError → Outcome S Done → Outcome S A
  undone e (ok _ s) = err e s
  undone e (err _ s) = panic
  undone e (blocked s) = blocked s
  undone e panic = panic

  abbrev pub undoing : Outcome S A → Exec S Done → Outcome S A
  undoing (ok a s) undo = ok a s
  undoing (err e s) undo = undone e (undo s)
  undoing (blocked s) undo = blocked s
  undoing panic undo = panic

  -- `m.map_err(|e| { undo.expect(..); e })?`
  unfoldable pub on_error : Exec S A → Exec S Done → Exec S A
  on_error m undo s = undoing (m s) undo

unfoldable pub modify : {S : Type 0} → (S → S) → Exec S Done
modify f s = ok tt (f s)

abbrev pub and_then {ℓ} : {S A B : Type ℓ} → Outcome S A → (A → Exec S B) → Outcome S B
and_then (ok a s) f = f a s
and_then (err e s) f = err e s
and_then (blocked s) f = blocked s
and_then panic f = panic

module _ {S A B : Type 0} where
  pub and_then-ok :
      {o : Outcome S A} {a : A} {s : S} (f : A → Exec S B) → o ≡ ok a s → and_then o f ≡ f a s
  and_then-ok f e = ap (λ o. and_then o f) e

infixl 5 ◌>>=◌ ◌>>◌
unfoldable pub ◌>>=◌ {ℓ} : {S A B : Type ℓ} → Exec S A → (A → Exec S B) → Exec S B
◌>>=◌ m f s = and_then (m s) f

unfoldable pub ◌>>◌ : {S B : Type 0} → Exec S Done → Exec S B → Exec S B
unfolding ◌>>=◌
m >> k = m >>= λ _. k

-- `a + b` on `u32`: with overflow checks the sum must fit, and without them it wraps.
unfoldable pub add_u32 : {S : Type 0} → Bool → ℕ → ℕ → Exec S ℕ
add_u32 checks a b s =
    if ltb (a + b) (2 ^ 32) then ok (a + b) s else if checks then panic else ok ((a + b) % 2 ^ 32) s

-- `a * b` on `u32`
unfoldable pub mul_u32 : {S : Type 0} → Bool → ℕ → ℕ → Exec S ℕ
mul_u32 checks a b s =
    if ltb (a * b) (2 ^ 32) then ok (a * b) s else if checks then panic else ok ((a * b) % 2 ^ 32) s
