-- ===== src/Shared/Raising.antt =====
-- A call that returns or raises.
use mathlib.Core.Logic.{inl, inr, ◌⊎◌}
use mathlib.Core.Path.{◌≡◌, refl}
use mathlib.Core.Bool.{Bool, true, false}
use discord_context_bridge.Shared.Tests.{if◌then◌else◌}

pub data Result {ℓ} (E A : Type ℓ) : Type ℓ where
  ok : A → Result E A
  err : E → Result E A

infixl 5 ◌>>=◌ ◌>>◌
abbrev pub ◌>>=◌ {ℓ} : {E A B : Type ℓ} → Result E A → (A → Result E B) → Result E B
ok a >>= f = f a
err e >>= f = err e

abbrev pub ◌>>◌ {ℓ} : {E B : Type ℓ} → Result E (Unit {ℓ}) → Result E B → Result E B
m >> k = m >>= λ _. k

-- `if not test: raise e`
abbrev pub require {ℓ} : {E : Type ℓ} → Bool → E → Result E (Unit {ℓ})
require true e = ok tt
require false e = err e

-- What returned by way of two calls returned from each.
pub >>=-eq-ok {ℓ} :
    {E A B : Type ℓ} (call : Result E A) (next : A → Result E B) {result : B}
    → (call >>= next) ≡ ok result
    → (between : A) × (call ≡ ok between) × (next between ≡ ok result)
>>=-eq-ok (err e) next returned = cc
>>=-eq-ok (ok between) next returned = (between, refl, returned)

-- What returned has passed a test that raises.
pub past {ℓ} :
    {E A : Type ℓ} (wrong : Bool) (e : E) (result : Result E A) {a : A}
    → (if wrong then err e else result) ≡ ok a
    → result ≡ ok a
past true e result h = cc
past false e result h = h

-- What returned past a test has passed it.
pub require-eq-ok {ℓ} :
    {E A : Type ℓ} (test : Bool) (e : E) (next : Result E A) {a : A}
    → (require test e >> next) ≡ ok a
    → (test ≡ true) × (next ≡ ok a)
require-eq-ok true e next h = (refl, h)
require-eq-ok false e next h = cc

pub ok-injective {ℓ} : {E A : Type ℓ} {a b : A} → ◌≡◌ {A = Result E A} (ok a) (ok b) → a ≡ b
ok-injective h = cc

pub Result-cases {ℓ} :
    {E A : Type ℓ} (call : Result E A) → ((e : E) × (call ≡ err e)) ⊎ ((a : A) × (call ≡ ok a))
Result-cases (ok a) = inr (a, refl)
Result-cases (err e) = inl (e, refl)
