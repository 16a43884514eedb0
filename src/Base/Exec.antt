-- ===== src/Base/Exec.antt =====
-- Methods that change a state and may raise: what was written before a raise stays written, so the
-- state comes back beside the error too.
use mathlib.Core.Path.{◌≡◌, refl}
use mathlib.Core.Logic.{◌⊎◌, inl, inr}
use mathlib.Core.Bool.{Bool, true, false}

pub data Result {ℓ} (E A : Type ℓ) : Type ℓ where
  ok : A → Result E A
  err : E → Result E A

pub Result-cases :
    {E A : Type 0} (r : Result E A) → ((a : A) × (r ≡ ok a)) ⊎ ((e : E) × (r ≡ err e))
Result-cases (ok a) = inl (a, refl)
Result-cases (err e) = inr (e, refl)

abbrev pub Exec : Type 0 → Type 0 → Type 0 → Type 0
Exec S E A = S → Result E A × S

module _ {S E A : Type 0} where
  abbrev pub pure : A → Exec S E A
  pure a s = (ok a, s)

  abbrev pub raise : E → Exec S E A
  raise e s = (err e, s)

  abbrev pub lift : Result E A → Exec S E A
  lift r s = (r, s)

  abbrev pub gets : (S → A) → Exec S E A
  gets f s = (ok (f s), s)

abbrev pub modify : {S E : Type 0} → (S → S) → Exec S E (Unit {0})
modify f s = (ok tt, f s)

module _ {S E A B : Type 0} where
  abbrev pub continue : Result E A → (A → Exec S E B) → Exec S E B
  continue (ok a) f s = f a s
  continue (err e) f s = (err e, s)

  infixl 5 ◌>>=◌ ◌>>◌
  abbrev pub ◌>>=◌ : Exec S E A → (A → Exec S E B) → Exec S E B
  ◌>>=◌ m f s = let (r, s') = m s in continue r f s'

  abbrev pub ◌>>◌ : Exec S E A → Exec S E B → Exec S E B
  m >> n = m >>= λ _. n

module _ {S E : Type 0} where
  -- `if not test: raise e`
  abbrev pub guard : Bool → E → Exec S E (Unit {0})
  guard true e s = (ok tt, s)
  guard false e s = (err e, s)

abbrev after : {E A : Type 0} → Result E (Unit {0}) → Result E A → Result E A
after (ok u) r = r
after (err e) r = err e

abbrev pub or_value : {E A : Type 0} → Result E A → A → A
or_value (ok x) a = x
or_value (err e) a = a

module _ {S E A : Type 0} where
  -- `try: m finally: f`, where what `f` raises replaces what `m` did.
  abbrev pub try_finally : Exec S E A → Exec S E (Unit {0}) → Exec S E A
  try_finally m f s = let (r, s1) = m s in let (q, s2) = f s1 in (after q r, s2)

  -- `try: return m, except Exception: return a`
  abbrev pub try_except : Exec S E A → A → S → A × S
  try_except m a s = let (r, s1) = m s in (or_value r a, s1)

-- What a call gives.
pub Run-cases :
    {S E A : Type 0} (p : Result E A × S)
    → ((a : A) × (s : S) × (p ≡ (ok a, s))) ⊎ ((e : E) × (s : S) × (p ≡ (err e, s)))
Run-cases (ok a, s) = inl (a, s, refl)
Run-cases (err e, s) = inr (e, s, refl)

-- `except E as exc: raise F from exc`
abbrev pub rename : {E F A : Type 0} → (E → F) → Result E A → Result F A
rename f (ok a) = ok a
rename f (err e) = err (f e)

abbrev pub map_error : {S E F A : Type 0} → (E → F) → Exec S E A → Exec S F A
map_error f m s = let (r, s1) = m s in (rename f r, s1)
