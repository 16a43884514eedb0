-- ===== src/Auth/Bootstrap/Tests.antt =====
-- The theorems on the bootstrap at two concrete calls, one after the other and at the same time.
use lite_mcp.Base.{ℕ, [], ◌∷◌, ◌≡◌, ◌⊎◌, map, refl, none}
use lite_mcp.Base.Exec.{ok, err}
use lite_mcp.Db.User.{User}
use lite_mcp.Auth.Bootstrap.{
  Attempt, already_initialized, first_admin, IsAdminOf, bootstrap_all, bootstrap_once,
}
use lite_mcp.Auth.Bootstrap.Lock.{
  System, Phase, waiting, refused, committed, set, lock, count, refuse, insert, commit, Reach, here,
  next, one_admin,
}

abbrev attempt : Attempt
attempt = record { username = "Ann"; password = "p"; id = 7; now = 3 }

bootstrap_once_example :
    (user : User) × IsAdminOf (λ s. s) (λ s. s) attempt user
    × (bootstrap_all (λ s. s) (λ s. s) (attempt ∷ attempt ∷ []) []
        ≡ (ok user ∷ map (λ b. err already_initialized) (attempt ∷ []), user ∷ []))
bootstrap_once_example = bootstrap_once (λ s. s) (λ s. s) attempt (attempt ∷ [])

abbrev admin : User
admin = first_admin (λ s. s) (λ s. s) attempt

-- Both calls wait; the first takes the lock and commits, and the second then finds its row.
abbrev phases : ℕ → Phase
phases = set 1 refused (
    set 1 (Phase.counted 1) (
      set 1 Phase.locked (
        set 0 (committed admin) (
          set 0 (Phase.inserted admin)
            (set 0 (Phase.counted 0) (set 0 Phase.locked (λ i. waiting)))))))

abbrev both_done : System
both_done = record { rows = admin ∷ []; holder = none; phase = phases }

reached : Reach (λ s. s) (λ s. s) (λ i. attempt) both_done
reached =
    next
      (next
        (next
          (next (next (next (next here (lock 0 refl refl)) (count 0 refl)) (insert 0 0 refl refl))
            (commit 0 admin refl))
          (lock 1 refl refl))
        (count 1 refl))
      (refuse 1 1 refl refl)

one_admin_example :
    ((both_done.rows ≡ [])
      ⊎ ((i : ℕ) × (both_done.phase i ≡ committed admin) × (both_done.rows ≡ admin ∷ [])))
    × ((i j : ℕ) (u v : User)
        → both_done.phase i ≡ committed u
        → both_done.phase j ≡ committed v
        → i ≡ j)
one_admin_example = one_admin (λ s. s) (λ s. s) (λ i. attempt) both_done reached
