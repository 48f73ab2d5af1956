-- ===== src/Zcbor/Runs.antt =====
-- What holds of the result of a run, if it has one.
use ccoreconf_zcbor.Common.{◌≡◌, refl, Option, none, some}
use ccoreconf_zcbor.Zcbor.{Run, ret, bad_read, out_of_fuel, ◌>>=◌, run_of}

-- what a run returns has this property, if it returns
abbrev pub Returns : {A : Type 0} → (A → Type 0) → Run A → Type 0
Returns P (ret a) = P a
Returns P bad_read = Unit
Returns P out_of_fuel = Unit

pub bind-Returns :
    {A B : Type 0} (P : B → Type 0) (p : Run A) (f : A → Run B)
    → ((a : A) → Returns P (f a))
    → Returns P (p >>= f)
bind-Returns P (ret a) f h = h a
bind-Returns P bad_read f h = tt
bind-Returns P out_of_fuel f h = tt

-- What the first run returns is known.
pub bind-Returns_after :
    {A B : Type 0} (Q : A → Type 0) (P : B → Type 0) (p : Run A) (f : A → Run B)
    → Returns Q p
    → ((a : A) → Q a → Returns P (f a))
    → Returns P (p >>= f)
bind-Returns_after Q P (ret a) f q h = h a q
bind-Returns_after Q P bad_read f q h = tt
bind-Returns_after Q P out_of_fuel f q h = tt

pub Returns-eq : {A : Type 0} (P : A → Type 0) (p : Run A) (a : A) → Returns P p → p ≡ ret a → P a
Returns-eq P p a h e = rw e at h

pub run_of-Returns :
    {A : Type 0} (P : A → Type 0) (o : Option A)
    → ((a : A) → o ≡ some a → P a)
    → Returns P (run_of o)
run_of-Returns P none h = tt
run_of-Returns P (some a) h = h a refl

pub ret-injective : {A : Type 0} {a b : A} → ret a ≡ ret b → a ≡ b
ret-injective h = cc

-- a run ends, and what it returns has this property, if it does not read where it must not
abbrev pub EndsIn : {A : Type 0} → (A → Type 0) → Run A → Type 0
EndsIn P (ret a) = P a
EndsIn P bad_read = Unit
EndsIn P out_of_fuel = ⊥

-- a run ends
abbrev pub Ends : {A : Type 0} → Run A → Type 0
Ends p = EndsIn (λ a. Unit) p

pub bind-EndsIn :
    {A B : Type 0} (Q : A → Type 0) (P : B → Type 0) (p : Run A) (f : A → Run B)
    → EndsIn Q p
    → ((a : A) → Q a → EndsIn P (f a))
    → EndsIn P (p >>= f)
bind-EndsIn Q P (ret a) f q h = h a q
bind-EndsIn Q P bad_read f q h = tt
bind-EndsIn Q P out_of_fuel f q h = absurd q

pub EndsIn-mono :
    {A : Type 0} (P Q : A → Type 0) (p : Run A) → ((a : A) → P a → Q a) → EndsIn P p → EndsIn Q p
EndsIn-mono P Q (ret a) f h = f a h
EndsIn-mono P Q bad_read f h = tt
EndsIn-mono P Q out_of_fuel f h = absurd h
