-- ===== src/Exec/Keeps.antt =====
-- Invariants of effectful code: a rule for each way to build it.
use simulatron.Common.{arith, ℕ, Bool, true, false, Option, none, some, if◌then◌else◌}
use simulatron.Exec.{
  CpuError, Exec, Outcome, ok, err, blocked, panic, Done, pure, raise, crash, gets, unwrap,
  critical, on_error, modify, fatally, undone, undoing, and_then, add_u32, mul_u32, ◌>>=◌, ◌>>◌,
}

-- `P` holds of the state that a call leaves, however it ends.
abbrev pub Leaves : {S A : Type 0} → (S → Type 0) → Outcome S A → Type 0
Leaves P (ok a s) = P s
Leaves P (err e s) = P s
Leaves P (blocked s) = P s
Leaves P panic = Unit

pub record Keeps {S A : Type 0} (P : S → Type 0) (m : Exec S A) : Type 0 where
  pub at : (s : S) → P s → Leaves P (m s)

Leaves-undone :
    {S : Type 0} (P : S → Type 0) (A : Type 0) (e : CpuError) (o : Outcome S Done)
    → Leaves P o
    → Leaves P (undone {A = A} e o)
Leaves-undone P A e (ok _ s) h = h
Leaves-undone P A e (err _ s) h = tt
Leaves-undone P A e (blocked s) h = h
Leaves-undone P A e panic h = h

module _ {S A : Type 0} (P : S → Type 0) where
  Leaves-fatally : (o : Outcome S A) → Leaves P o → Leaves P (fatally o)
  Leaves-fatally (ok a s) h = h
  Leaves-fatally (err e s) h = h
  Leaves-fatally (blocked s) h = h
  Leaves-fatally panic h = h

  Leaves-undoing :
      (o : Outcome S A) (undo : Exec S Done) → Leaves P o → Keeps P undo → Leaves P (undoing o undo)
  Leaves-undoing (ok a s) undo h k = h
  Leaves-undoing (err e s) undo h k = Leaves-undone P A e (undo s) (k.at s h)
  Leaves-undoing (blocked s) undo h k = h
  Leaves-undoing panic undo h k = h

module _ {S A : Type 0} {P : S → Type 0} where
  pub Keeps-pure : (a : A) → Keeps P (pure a)
  unfolding pure
  Keeps-pure a = record { at = λ s h. h }

  pub Keeps-raise : (e : CpuError) → Keeps P (raise {A = A} e)
  unfolding raise
  Keeps-raise e = record { at = λ s h. h }

  pub Keeps-crash : Keeps P (crash {A = A})
  unfolding crash
  Keeps-crash = record { at = λ s h. tt }

  pub Keeps-gets : (f : S → A) → Keeps P (gets f)
  unfolding gets
  Keeps-gets f = record { at = λ s h. h }

  pub Keeps-unwrap : (o : Option A) → Keeps P (unwrap o)
  unfolding unwrap
  Keeps-unwrap none = Keeps-crash
  Keeps-unwrap (some a) = Keeps-pure a

  pub Keeps-if : (b : Bool) (m n : Exec S A) → Keeps P m → Keeps P n → Keeps P (if b then m else n)
  Keeps-if true m n km kn = km
  Keeps-if false m n km kn = kn

  pub Keeps-critical : (m : Exec S A) → Keeps P m → Keeps P (critical m)
  unfolding critical
  Keeps-critical m km = record { at = λ s h. Leaves-fatally P (m s) (km.at s h) }

  pub Keeps-on_error :
      (m : Exec S A) (undo : Exec S Done) → Keeps P m → Keeps P undo → Keeps P (on_error m undo)
  unfolding on_error
  Keeps-on_error m undo km ku = record { at = λ s h. Leaves-undoing P (m s) undo (km.at s h) ku }

pub Keeps-modify :
    {S : Type 0} {P : S → Type 0} (f : S → S) → ((s : S) → P s → P (f s)) → Keeps P (modify f)
unfolding modify
Keeps-modify f h = record { at = h }

pub Keeps-add_u32 :
    {S : Type 0} {P : S → Type 0} (debug : Bool) (a b : ℕ) → Keeps P (add_u32 debug a b)
unfolding add_u32
Keeps-add_u32 debug a b = record { at = λ s h. ground arith }

pub Keeps-mul_u32 :
    {S : Type 0} {P : S → Type 0} (debug : Bool) (a b : ℕ) → Keeps P (mul_u32 debug a b)
unfolding mul_u32
Keeps-mul_u32 debug a b = record { at = λ s h. ground arith }

module _ {S A B : Type 0} {P : S → Type 0} where
  Leaves-and_then :
      (o : Outcome S A) (f : A → Exec S B)
      → Leaves P o
      → ((a : A) → Keeps P (f a))
      → Leaves P (and_then o f)
  Leaves-and_then (ok a s) f h kf = (kf a).at s h
  Leaves-and_then (err e s) f h kf = h
  Leaves-and_then (blocked s) f h kf = h
  Leaves-and_then panic f h kf = tt

  pub Keeps-bind :
      (first : Exec S A) (next : A → Exec S B)
      → Keeps P first
      → ((result : A) → Keeps P (next result))
      → Keeps P (first >>= next)
  unfolding ◌>>=◌
  Keeps-bind first next kept_first kept_next = record {
    at = λ s p. Leaves-and_then (first s) next (kept_first.at s p) kept_next;
  }

pub Keeps-then :
    {S B : Type 0} {P : S → Type 0} (m : Exec S Done) (k : Exec S B)
    → Keeps P m
    → Keeps P k
    → Keeps P (m >> k)
unfolding ◌>>◌
Keeps-then m k km kk = Keeps-bind m (λ _. k) km (λ _. kk)

pub ruleset keeps_rules = (
  Keeps-pure, Keeps-raise, Keeps-crash, Keeps-gets, Keeps-unwrap, Keeps-if, Keeps-critical,
  Keeps-add_u32, Keeps-mul_u32, Keeps-bind, Keeps-then,
)
