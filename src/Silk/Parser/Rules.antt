-- ===== src/Silk/Parser/Rules.antt =====
-- Postconditions of parsers and of code that may fail, with the rule for a sequence.
use simulatron.Silk.Result
use simulatron.Silk.Result.{Result, OfError, ok, err, panic, Done}
use simulatron.Silk.Parser.{Parser, Parse, and_then}

-- Where a call succeeds its result has the property; it may fail with an error, or panic.
abbrev pub Gives : {A : Type 0} → (A → Type 0) → Result A → Type 0
Gives Q (ok a) = Q a
Gives Q (err e) = Unit
Gives Q panic = Unit

-- The same for a call that does not panic.
abbrev pub Surely : {A : Type 0} → (A → Type 0) → Result A → Type 0
Surely Q (ok a) = Q a
Surely Q (err e) = Unit
Surely Q panic = ⊥

pub Gives-bind :
    {A B : Type 0} (P : A → Type 0) (Q : B → Type 0) (r : Result A) (f : A → Result B)
    → Gives P r
    → ((a : A) → P a → Gives Q (f a))
    → Gives Q (Result.◌>>=◌ r f)
Gives-bind P Q (ok a) f p k = k a p
Gives-bind P Q (err e) f p k = tt
Gives-bind P Q panic f p k = tt

pub Surely-bind :
    {A B : Type 0} (P : A → Type 0) (Q : B → Type 0) (r : Result A) (f : A → Result B)
    → Surely P r
    → ((a : A) → P a → Surely Q (f a))
    → Surely Q (Result.◌>>=◌ r f)
Surely-bind P Q (ok a) f p k = k a p
Surely-bind P Q (err e) f p k = tt
Surely-bind P Q panic f p k = p

-- a parser's result and the state that it leaves, without a panic
abbrev pub Ends : {A : Type 0} → (A → Parser → Type 0) → Result (A × Parser) → Type 0
Ends Q (ok (a, p)) = Q a p
Ends Q (err e) = Unit
Ends Q panic = ⊥

pub Ends-bind :
    {A B : Type 0} (P : A → Parser → Type 0) (Q : B → Parser → Type 0) (r : Result (A × Parser))
    (f : A → Parse B)
    → Ends P r
    → ((a : A) (p : Parser) → P a p → Ends Q (f a p))
    → Ends Q (and_then r f)
Ends-bind P Q (ok (a, p)) f h k = k a p h
Ends-bind P Q (err e) f h k = tt
Ends-bind P Q panic f h k = h

-- The call succeeds, and its result has the property.
abbrev pub Makes : {A : Type 0} → (A → Type 0) → Result A → Type 0
Makes Q (ok a) = Q a
Makes Q (err e) = ⊥
Makes Q panic = ⊥

pub Makes-bind :
    {A B : Type 0} (P : A → Type 0) (Q : B → Type 0) (r : Result A) (f : A → Result B)
    → Makes P r
    → ((a : A) → P a → Makes Q (f a))
    → Makes Q (Result.◌>>=◌ r f)
Makes-bind P Q (ok a) f p k = k a p
Makes-bind P Q (err e) f p k = absurd p
Makes-bind P Q panic f p k = absurd p

pub Makes-mono :
    {A : Type 0} (P Q : A → Type 0) (r : Result A) → ((a : A) → P a → Q a) → Makes P r → Makes Q r
Makes-mono P Q (ok a) f p = f a p
Makes-mono P Q (err e) f p = p
Makes-mono P Q panic f p = p
