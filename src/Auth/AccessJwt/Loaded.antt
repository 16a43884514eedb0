-- ===== src/Auth/AccessJwt/Loaded.antt =====
-- `_load_active_user` of backend/src/litemcp/auth/access_jwt.py, on the sessions of db/session.py.
use lite_mcp.Base.{ℕ, Option, ◌∷◌, ◌≡◌, ◌∙◌, ◌↔◌, sym, ap, inl, inr, refl}
use lite_mcp.Base.Exec.{
  Result, ok, err, Result-cases, rename, Exec, ◌>>=◌, try_finally, map_error, Run-cases,
}
use lite_mcp.Platform.Python.{Exception}
use lite_mcp.Platform.Resources.{State, engine, on_world, same_resource}
use lite_mcp.Db.User.{User}
use lite_mcp.Db.Session.{
  Sqlalchemy, get_session_factory, dispose_factory, with_session, session_released,
}
use lite_mcp.Auth.AccessJwt.{AccessJwtError, database_unavailable}

-- What a call raises: an AccessJwtError, or what another call raised.
pub data LoadError : Type 0 where
  access : AccessJwtError → LoadError
  other : Exception → LoadError

-- `session.get(User, user_id)`
module _ {W : Type 0} (d : Sqlalchemy W) (get_user : ℕ → ℕ → Exec W Exception (Option User)) where
  open d use {get_settings, create_async_engine, async_session, close, dispose}

  abbrev with_user : ℕ → ℕ → Exec (State W) Exception (Option User)
  with_user user_id n = with_session d n (λ m. on_world (get_user m user_id))

  pub load_active_user : ℕ → Exec (State W) LoadError (Option User)
  load_active_user user_id = map_error other (get_session_factory d) >>= λ n.
      try_finally (map_error (λ e. access database_unavailable) (with_user user_id n))
        (map_error other (dispose_factory d n))

  load-Releases : (user_id : ℕ) (s : State W) → (load_active_user user_id s).1.held ≡ s.held
  unfolding load_active_user get_session_factory dispose_factory
  load-Releases user_id s = elim (Run-cases (get_settings s.world)) [
    | inr (e, w1, h1) ↦ rw h1 refl
    | inl (settings, w1, h1) ↦ elim (Run-cases (create_async_engine settings.database_url w1)) [
      | inr (e, w2, h2) ↦ rw (h1, h2) refl
      | inl (n, w2, h2) ↦
          rw
            (
              h1,
              h2,
              session_released d n (λ m. on_world (get_user m user_id)) (λ m s'. refl)
                  (record { world = w2; held = engine n ∷ s.held }),
              same_resource (engine n),
            )
            refl
    ]
  ]

  -- The look-up in a session of the factory gives an account, or none, and nothing of it raises.
  pub record LooksUp (user_id n : ℕ) (w : W) (user : Option User) : Type 0 where
    pub session : ℕ
    pub opened : W
    pub read : W
    pub closed : W
    pub opens : async_session n w ≡ (ok session, opened)
    pub gets : get_user session user_id opened ≡ (ok user, read)
    pub closes : close session read ≡ (ok tt, closed)

  ok-inj : (a b : Option User) → ◌≡◌ {A = Result Exception (Option User)} (ok a) (ok b) → a ≡ b
  ok-inj a b h = cc

  module _ (user_id n : ℕ) (s' : State W) where
    of_look_up :
        (user : Option User)
        → LooksUp user_id n s'.world user
        → (with_user user_id n s').0 ≡ ok user
    unfolding with_session
    of_look_up user l = rw (l.opens, l.gets, l.closes) refl

    looked_up :
        (user : Option User)
        → (with_user user_id n s').0 ≡ ok user
        → LooksUp user_id n s'.world user
    unfolding with_session
    looked_up user h = elim (Run-cases (async_session n s'.world)) [
      | inr (e, w1, h1) ↦ let q : (with_user user_id n s').0 ≡ err e = rw h1 refl in absurd cc
      | inl (m, w1, h1) ↦ elim (Run-cases (get_user m user_id w1)) [
        | inr (e, w2, h2) ↦ elim (Run-cases (close m w2)) [
          | inr (e', w3, h3) ↦
              let q : (with_user user_id n s').0 ≡ err e' = rw (h1, h2, h3) refl in absurd cc
          | inl (t, w3, h3) ↦
              let q : (with_user user_id n s').0 ≡ err e = rw (h1, h2, h3) refl in absurd cc
        ]
        | inl (u, w2, h2) ↦ elim (Run-cases (close m w2)) [
          | inr (e, w3, h3) ↦
              let q : (with_user user_id n s').0 ≡ err e = rw (h1, h2, h3) refl in absurd cc
          | inl (t, w3, h3) ↦
              let q : (with_user user_id n s').0 ≡ ok u = rw (h1, h2, h3) refl in
              record {
                session = m;
                opened = w1;
                read = w2;
                closed = w3;
                opens = h1;
                gets = h2 ∙ ap (λ x. (ok x, w2)) (ok-inj u user (sym q ∙ h));
                closes = h3;
              }
        ]
      ]
    ]

    module _ (s : State W) (h : get_session_factory d s ≡ (ok n, s'))
        (disposes : (w : W) → (w' : W) × (dispose n w ≡ (ok tt, w'))) where
      -- The outcome of the look-up, with one error for all.
      load-result :
          (load_active_user user_id s).0
          ≡ rename (λ e. access database_unavailable) (with_user user_id n s').0
      unfolding load_active_user dispose_factory
      load-result = elim (Run-cases (with_user user_id n s')) [
        | inl (user, t, h1) ↦ let (w', q) = disposes t.world in rw (h, h1, q) refl
        | inr (e, t, h1) ↦ let (w', q) = disposes t.world in rw (h, h1, q) refl
      ]

  rename-eq-ok :
      (r : Result Exception (Option User)) (user : Option User)
      → rename (λ e. access database_unavailable) r ≡ ok user
      → r ≡ ok user
  rename-eq-ok (ok u) user h = cc
  rename-eq-ok (err e) user h = cc

  -- Where the settings load, the engine is made and its disposal does not raise, the call returns what
  -- the look-up of the id finds in a session that opens and closes; where opening the session, the
  -- look-up or closing the session raises, it raises DATABASE_UNAVAILABLE; and neither the session nor
  -- the engine is held after the call.
  pub load_masks :
      (user_id n : ℕ) (s s' : State W)
      → get_session_factory d s ≡ (ok n, s')
      → ((w : W) → (w' : W) × (dispose n w ≡ (ok tt, w')))
      → ((user : Option User)
          → ((load_active_user user_id s).0 ≡ ok user) ↔ LooksUp user_id n s'.world user)
        × (((load_active_user user_id s).0 ≡ err (access database_unavailable))
            ↔ ((user : Option User) → ¬ LooksUp user_id n s'.world user))
        × ((load_active_user user_id s).1.held ≡ s.held)
  load_masks user_id n s s' h disposes =
      let result = load-result user_id n s' s h disposes in
      (
        λ user. (
          λ e.
              looked_up user_id n s' user
                (rename-eq-ok (with_user user_id n s').0 user (sym result ∙ e)),
          λ l.
              result
              ∙ ap (rename (λ e. access database_unavailable)) (of_look_up user_id n s' user l),
        ),
        (
          λ e user l.
              let p : (load_active_user user_id s).0 ≡ ok user =
                result
                ∙ ap (rename (λ e. access database_unavailable)) (of_look_up user_id n s' user l) in
              cc,
          λ none_found. elim (Result-cases (with_user user_id n s').0) [
            | inl (u, e) ↦ absurd (none_found u (looked_up user_id n s' u e))
            | inr (x, e) ↦ result ∙ ap (rename (λ e. access database_unavailable)) e
          ],
        ),
        load-Releases user_id s,
      )
