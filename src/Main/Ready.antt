-- ===== src/Main/Ready.antt =====
-- When the service is ready, and what the probes leave behind.
use lite_mcp.Base.{ap, ℕ, Bool, true, false, ◌≡◌, ◌↔◌, refl, ◌∙◌, arith, inl, inr}
use lite_mcp.Base.Exec.{Result, Exec, ok, Run-cases, try_except, try_finally, ◌>>=◌}
use lite_mcp.Config.{Settings}
use lite_mcp.Platform.Python.{Exception}
use lite_mcp.Platform.Resources.{
  State, Resource, acquire, on_world, release, engine, client, with_resource-held,
}
use lite_mcp.Main.{
  Drivers, probe_timeout, connect_timeout, probe_database_async, probe_database, probe_redis,
  readyz, readiness, select_answers,
}

-- What the two probes have in common.
module _ {W : Type 0} (kind : ℕ → Resource) (get : Exec W Exception Settings)
    (make : Settings → Exec W Exception ℕ) (test : ℕ → Exec W Exception Bool)
    (close : ℕ → Exec W Exception (Unit {0})) where
  abbrev pub probe : Exec (State W) Exception Bool
  probe = on_world get >>= λ settings. acquire kind (make settings) >>= λ n.
      try_finally (on_world (test n)) (release (kind n) (close n))

  -- Every call of a probe returns, the test with true.
  abbrev pub Answers : W → Type 0
  Answers w =
      (settings : Settings) × (w1 : W) × (n : ℕ) × (w2 : W) × (w3 : W) × (w4 : W) × (get w
        ≡ (ok settings, w1))
      × (make settings w1 ≡ (ok n, w2))
      × (test n w2 ≡ (ok true, w3))
      × (close n w3 ≡ (ok tt, w4))

  probe-Answers : (s : State W) → (try_except probe false s).0 ≡ true → Answers s.world
  probe-Answers s h = elim (Run-cases (get s.world)) [
    | inr (e, w1, h1) ↦ ground (arith, h1)
    | inl (settings, w1, h1) ↦ elim (Run-cases (make settings w1)) [
      | inr (e, w2, h2) ↦ ground (arith, h1, h2)
      | inl (n, w2, h2) ↦ elim (Run-cases (test n w2)) [
        | inr (e, w3, h3) ↦ elim (Run-cases (close n w3)) [
          | inr (e, w4, h4) ↦ ground (arith, h1, h2, h3, h4)
          | inl (u, w4, h4) ↦ ground (arith, h1, h2, h3, h4)
        ]
        | inl (false, w3, h3) ↦ elim (Run-cases (close n w3)) [
          | inr (e, w4, h4) ↦ ground (arith, h1, h2, h3, h4)
          | inl (u, w4, h4) ↦ ground (arith, h1, h2, h3, h4)
        ]
        | inl (true, w3, h3) ↦ elim (Run-cases (close n w3)) [
          | inr (e, w4, h4) ↦ ground (arith, h1, h2, h3, h4)
          | inl (u, w4, h4) ↦ (settings, w1, n, w2, w3, w4, h1, h2, h3, h4)
        ]
      ]
    ]
  ]

  Answers-probe : (s : State W) → Answers s.world → (try_except probe false s).0 ≡ true
  Answers-probe s (settings, w1, n, w2, w3, w4, h1, h2, h3, h4) = rw (h1, h2, h3, h4) refl

  -- Whatever is raised, what a probe made is given back.
  probe-held : (s : State W) → (try_except probe false s).1.held ≡ s.held
  probe-held s = elim (Run-cases (get s.world)) [
    | inr (e, w1, h1) ↦ rw h1 refl
    | inl (settings, w1, h1) ↦ rw h1 (
        with_resource-held kind (make settings) (λ n. on_world (test n)) close (λ n s'. refl)
          (record s { world = w1 }))
  ]

both_ok : (a b : Bool) → (readiness a b).status_code ≡ 200 → (a ≡ true) × (b ≡ true)
both_ok true true h = (refl, refl)
both_ok true false h = absurd (omega (arith, h))
both_ok false b h = absurd (omega (arith, h))

module _ {W : Type 0} (d : Drivers W) where
  open d use {get_settings, create_async_engine, select_one, dispose, from_url, ping, close}

  abbrev make_engine : Settings → Exec W Exception ℕ
  make_engine settings =
      create_async_engine settings.database_url (connect_timeout d settings.database_url)

  abbrev make_client : Settings → Exec W Exception ℕ
  make_client settings = from_url settings.redis_url probe_timeout probe_timeout

  -- The settings load, an engine for their URL answers the query in time, and it is disposed of
  -- without an error.
  abbrev pub DatabaseAnswers : W → Type 0
  DatabaseAnswers w =
      (settings : Settings) × (w1 : W) × (n : ℕ) × (w2 : W) × (w3 : W) × (w4 : W) × (get_settings w
        ≡ (ok settings, w1))
      × (make_engine settings w1 ≡ (ok n, w2))
      × (select_one n probe_timeout w2 ≡ (ok tt, w3))
      × (dispose n w3 ≡ (ok tt, w4))

  select-answers :
      (n : ℕ) (w w' : W)
      → select_answers d n w ≡ (ok true, w')
      → select_one n probe_timeout w ≡ (ok tt, w')
  unfolding select_answers
  select-answers n w w' h = elim (Run-cases (select_one n probe_timeout w)) [
    | inl (u, w1, e) ↦ e ∙ ap (λ x. (ok tt, x)) (second (ground (arith, h, e)))
    | inr (error, w1, e) ↦ ground (arith, h, e)
  ]
    where
      second : {x y : W} → ◌≡◌ {A = Result Exception Bool × W} (ok true, x) (ok true, y) → x ≡ y
      second q = ap (λ r. r.1) q

  -- The settings load, a client for their URL answers the ping, and it is closed without an error.
  abbrev pub RedisAnswers : W → Type 0
  RedisAnswers = Answers client get_settings make_client ping close

  database-answers : (s : State W) → (probe_database d s).0 ≡ true → DatabaseAnswers s.world
  unfolding probe_database probe_database_async
  database-answers s h =
      let (settings, w1, n, w2, w3, w4, h1, h2, h3, h4) =
        probe-Answers engine get_settings make_engine (select_answers d) dispose s h in
      (settings, w1, n, w2, w3, w4, h1, h2, select-answers n w2 w3 h3, h4)

  answers-database : (s : State W) → DatabaseAnswers s.world → (probe_database d s).0 ≡ true
  unfolding probe_database probe_database_async select_answers
  answers-database s (settings, w1, n, w2, w3, w4, h1, h2, h3, h4) = rw (h1, h2, h3, h4) refl

  database-held : (s : State W) → (probe_database d s).1.held ≡ s.held
  unfolding probe_database probe_database_async
  database-held s = probe-held engine get_settings make_engine (select_answers d) dispose s

  redis-answers : (s : State W) → (probe_redis d s).0 ≡ true → RedisAnswers s.world
  unfolding probe_redis
  redis-answers s h = probe-Answers client get_settings make_client ping close s h

  answers-redis : (s : State W) → RedisAnswers s.world → (probe_redis d s).0 ≡ true
  unfolding probe_redis
  answers-redis s h = Answers-probe client get_settings make_client ping close s h

  redis-held : (s : State W) → (probe_redis d s).1.held ≡ s.held
  unfolding probe_redis
  redis-held s = probe-held client get_settings make_client ping close s

  ready_iff :
      (s : State W)
      → ((readyz d s).0.status_code ≡ 200)
        ↔ (DatabaseAnswers s.world × RedisAnswers (probe_database d s).1.world)
  unfolding readyz
  ready_iff s = (
    λ h.
        let (db, redis) =
          both_ok (probe_database d s).0 (probe_redis d (probe_database d s).1).0 h in
        (database-answers s db, redis-answers (probe_database d s).1 redis),
    λ (db, redis). rw (answers-database s db, answers-redis (probe_database d s).1 redis) refl,
  )

  releases : (s : State W) → (readyz d s).1.held ≡ s.held
  unfolding readyz
  releases s = redis-held (probe_database d s).1 ∙ database-held s

  -- The service is ready exactly if the database answers and, after it, Redis; and whatever the
  -- drivers raise, no engine and no client of the request is held after it.
  pub readyz_decides :
      (s : State W)
      → (((readyz d s).0.status_code ≡ 200)
          ↔ (DatabaseAnswers s.world × RedisAnswers (probe_database d s).1.world))
        × ((readyz d s).1.held ≡ s.held)
  readyz_decides s = (ready_iff s, releases s)
