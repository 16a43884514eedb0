-- ===== src/Platform/Resources.antt =====
-- What a call makes and has to give back, beside the world of the drivers that it calls.
use lite_mcp.Base.{
  ℕ, Bool, true, false, List, [], ◌∷◌, ◌≡◌, refl, eqb, arith, if◌then◌else◌, inl, inr,
}
use lite_mcp.Base.Exec.{Result, ok, err, Exec, Run-cases, ◌>>=◌, try_finally}
use lite_mcp.Platform.Python.{Exception}

-- An engine, a client of Redis or a session.
pub data Resource : Type 0 where
  engine client session : ℕ → Resource

abbrev pub same : Resource → Resource → Bool
same (engine a) (engine b) = eqb a b
same (client a) (client b) = eqb a b
same (session a) (session b) = eqb a b
same _ _ = false

-- A resource that is disposed of is no longer held.
abbrev pub drop_first : Resource → List Resource → List Resource
drop_first r [] = []
drop_first r (x ∷ xs) = let rest = drop_first r xs in if same r x then xs else x ∷ rest

pub record State (W : Type 0) : Type 0 where
  pub world : W
  pub held : List Resource

module _ {W A : Type 0} where
  -- A call of a driver.
  abbrev pub on_world : Exec W Exception A → Exec (State W) Exception A
  on_world m s = let (r, w) = m s.world in (r, record s { world = w })

abbrev hold : (ℕ → Resource) → Result Exception ℕ → List Resource → List Resource
hold kind (ok n) held = kind n ∷ held
hold kind (err e) held = held

-- A call that makes a resource, and one that gives it back, whether it raises or not.
module _ {W : Type 0} where
  abbrev pub acquire : (ℕ → Resource) → Exec W Exception ℕ → Exec (State W) Exception ℕ
  acquire kind m s = let (r, w) = m s.world in (r, record { world = w; held = hold kind r s.held })

  abbrev pub release : Resource → Exec W Exception (Unit {0}) → Exec (State W) Exception (Unit {0})
  release r m s = let (q, w) = m s.world in (q, record { world = w; held = drop_first r s.held })

pub same_resource : (r : Resource) → same r r ≡ true
same_resource (engine n) = ground arith
same_resource (client n) = ground arith
same_resource (session n) = ground arith

-- A resource that is made, used and given back, whatever the use raises.
module _ {W A : Type 0} (kind : ℕ → Resource) (make : Exec W Exception ℕ) where
  abbrev pub with_resource :
      (ℕ → Exec (State W) Exception A)
      → (ℕ → Exec W Exception (Unit {0}))
      → Exec (State W) Exception A
  with_resource body close =
      acquire kind make >>= λ n. try_finally (body n) (release (kind n) (close n))

  -- After it, what was held before is held again, if the use holds the same after it as before.
  pub with_resource-held :
      (body : ℕ → Exec (State W) Exception A) (close : ℕ → Exec W Exception (Unit {0}))
      → ((n : ℕ) (s : State W) → (body n s).1.held ≡ s.held)
      → (s : State W) → (with_resource body close s).1.held ≡ s.held
  with_resource-held body close keeps s = elim (Run-cases (make s.world)) [
    | inr (e, w1, h1) ↦ rw h1 refl
    | inl (n, w1, h1) ↦
        rw (h1, keeps n (record { world = w1; held = kind n ∷ s.held }), same_resource (kind n))
          refl
  ]
