-- ===== src/Base/Checks.antt =====
-- Functions that raise: checks that end a call early, and what a success says of each of them.
use mathlib.Core.Path.{◌≡◌, refl}
use mathlib.Core.Bool.{Bool, true, false}
use mathlib.Core.Option.{Option, none, some}
use package.lite_mcp.Base.Exec.{Result, ok, err}

infixl 5 ◌>>=◌ ◌>>◌
abbrev pub ◌>>=◌ {ℓ} : {E A B : Type ℓ} → Result E A → (A → Result E B) → Result E B
ok a >>= f = f a
err e >>= f = err e

abbrev pub ◌>>◌ : {E B : Type 0} → Result E (Unit {0}) → Result E B → Result E B
m >> k = m >>= λ _. k

-- `if not test: raise e`
abbrev pub require : {E : Type 0} → Bool → E → Result E (Unit {0})
require true e = ok tt
require false e = err e

-- An `Option` whose `None` raises.
abbrev pub or_raise : {E A : Type 0} → Option A → E → Result E A
or_raise none e = err e
or_raise (some a) e = ok a

pub >>=-eq-ok {ℓ} :
    {E A B : Type ℓ} (m : Result E A) (f : A → Result E B) (b : B)
    → (m >>= f) ≡ ok b
    → (a : A) × (m ≡ ok a) × (f a ≡ ok b)
>>=-eq-ok (ok a) f b h = (a, refl, h)
>>=-eq-ok (err e) f b h = cc

pub require-eq-ok :
    {E B : Type 0} (t : Bool) (e : E) (k : Result E B) (b : B)
    → (require t e >> k) ≡ ok b
    → (t ≡ true) × (k ≡ ok b)
require-eq-ok true e k b h = (refl, h)
require-eq-ok false e k b h = cc

pub or_raise-eq-ok :
    {E A B : Type 0} (o : Option A) (e : E) (f : A → Result E B) (b : B)
    → (or_raise o e >>= f) ≡ ok b
    → (a : A) × (o ≡ some a) × (f a ≡ ok b)
or_raise-eq-ok none e f b h = cc
or_raise-eq-ok (some a) e f b h = (a, refl, h)

pub or_raise-last : {E A : Type 0} (o : Option A) (e : E) (a : A) → or_raise o e ≡ ok a → o ≡ some a
or_raise-last none e a h = cc
or_raise-last (some b) e a h = cc

pub require-last :
    {E A : Type 0} (t : Bool) (e : E) (a b : A)
    → (require t e >>= λ _. ok a) ≡ ok b
    → (t ≡ true) × (a ≡ b)
require-last true e a b h = (refl, cc)
require-last false e a b h = cc
