-- ===== src/Auth/Refresh/Race.antt =====
-- Two calls of `rotate_refresh_token` at once, each stopped between its awaits. A call's phases are
-- the reads and checks of the session, the write of the new hash, the read of it that confirms it,
-- and the rest. Reads that follow one another without a write of the call are one phase.
use lite_mcp.Base.{
  ℕ, ◌-◌, ◌/◌, max, String, Bool, true, false, List, [], ◌∷◌, ◌≡◌, ◌∙◌, ap, refl, eq_iff, lookup,
}
use lite_mcp.Base.Tests.{leb-false}
use lite_mcp.Base.Exec.{Result, ok, err, ◌>>=◌, ◌>>◌, pure}
use lite_mcp.Platform.Python.{Stdlib, StdlibLaws}
use lite_mcp.Platform.Redis.{Redis, RedisLaws}
use lite_mcp.Config.{Settings}
use lite_mcp.Db.User.{User}
use lite_mcp.Db.Users.{Users}
use lite_mcp.Auth.Session.{Encode, admin_session_key, session_environment}
use lite_mcp.Auth.Refresh.{
  RefreshError, secret_mismatch, RefreshRotation, World, RotateDraws, StoredSession, Step,
  rotated_fields, load_session, check_live, write_new_secret, confirm_secret, mint,
}
use lite_mcp.Auth.Refresh.Holding.{hash-hset, guard-confirmed}
use lite_mcp.Auth.Refresh.Rotation.{
  IsCurrent, IsLive, rotated, issued, load_active-eq-ok, load_session-eq-ok,
}

pub data Phase : Type 0 where
  ready : Phase
  checked wrote confirmed : StoredSession → Phase
  minted : RefreshRotation → Phase
  failed : RefreshError → Phase

module _ (py : Stdlib) (encode : Encode) (R : Redis) (D : Users) (settings : Settings) where
  abbrev settle : {A : Type 0} → (A → Phase) → Result RefreshError A × World R D → Phase × World R D
  settle f (ok a, w) = (f a, w)
  settle f (err e, w) = (failed e, w)

  -- A call between two awaits: what it drew, and the token that it was given.
  pub record Call : Type 0 where
    pub draws : RotateDraws
    pub session_id : String
    pub secret : String
    pub moment : ℕ

  begin : Call → Step py encode R D StoredSession
  begin c = do
    session ←
        load_session py encode R D (admin_session_key (session_environment settings) c.session_id)
    check_live py encode R D settings c.draws c.session_id c.secret c.moment session
    pure session

  -- One phase of a call.
  advance : Call → Phase → World R D → Phase × World R D
  unfolding begin
  advance c ready w = settle checked (begin c w)
  advance c (checked s) w =
      settle (λ _. wrote s)
        (write_new_secret py encode R D settings c.draws
          (admin_session_key (session_environment settings) c.session_id) c.moment s w)
  advance c (wrote s) w =
      settle (λ _. confirmed s)
        (confirm_secret py encode R D c.draws
          (admin_session_key (session_environment settings) c.session_id) w)
  advance c (confirmed s) w =
      settle minted (mint py encode R D settings c.draws c.session_id c.moment s w)
  advance c (minted r) w = (minted r, w)
  advance c (failed e) w = (failed e, w)

  pub record Two : Type 0 where
    pub first : Phase
    pub second : Phase
    pub world : World R D

  abbrev after_first : Two → Phase × World R D → Two
  after_first t (p, w) = record { first = p; second = t.second; world = w }

  abbrev after_second : Two → Phase × World R D → Two
  after_second t (p, w) = record { first = t.first; second = p; world = w }

  -- A schedule says whose turn it is: `false` is the first call, `true` the second.
  pub interleave : Call → Call → List Bool → Two → Two
  interleave a b [] t = t
  interleave a b (false ∷ turns) t =
      interleave a b turns (after_first t (advance a t.first t.world))
  interleave a b (true ∷ turns) t =
      interleave a b turns (after_second t (advance b t.second t.world))

module _ (py : Stdlib) (pyl : StdlibLaws py) (R : Redis) (laws : RedisLaws R) (encode : Encode)
    (D : Users) (settings : Settings) where
  open py use {sha256}
  open R use {hset}

  abbrev key : Call py encode R D settings → String
  key c = admin_session_key (session_environment settings) c.session_id

  -- The fields that a call writes.
  abbrev fields : Call py encode R D settings → StoredSession → List (String × String)
  fields c s =
      rotated_fields py (sha256 c.draws.new_secret) c.moment
        (rotated py pyl R laws encode D settings c.draws c.moment s).idle_expires_at

  abbrev Live : Call py encode R D settings → StoredSession → World R D → Type 0
  Live c s w = IsLive py pyl R laws encode D settings c.draws c.session_id c.secret c.moment s w

  begins :
      (c : Call py encode R D settings) (s : StoredSession) (w : World R D)
      → Live c s w
      → s.stored_hash ≡ sha256 c.secret
      → advance py encode R D settings c ready w ≡ (checked s, w)
  unfolding advance check_live
  begins c s w l same =
      rw
        (
          load_session-eq-ok py pyl R laws encode D w (key c) s l.holds,
          leb-false _ _ l.absolute,
          leb-false _ _ l.idle,
          (eq_iff s.stored_hash (sha256 c.secret)).1 same,
        )
        refl

  writes :
      (c : Call py encode R D settings) (s : StoredSession) (w : World R D)
      → advance py encode R D settings c (checked s) w
        ≡ (wrote s, record w { redis = hset w.redis (key c) (fields c s) })
  unfolding advance write_new_secret
  writes c s w = refl

  confirms :
      (c : Call py encode R D settings) (s : StoredSession) (w : World R D)
      → advance py encode R D settings c
          (wrote s)
          (record w { redis = hset w.redis (key c) (fields c s) })
        ≡ (confirmed s, record w { redis = hset w.redis (key c) (fields c s) })
  unfolding advance confirm_secret
  confirms c s w = ap (settle py encode R D settings (λ _. confirmed s)) (
      guard-confirmed
        (lookup "current_secret_hash" (R.hgetall (hset w.redis (key c) (fields c s)) (key c)))
        (sha256 c.draws.new_secret) secret_mismatch _
        (hash-hset py pyl R laws w.redis (key c) (sha256 c.draws.new_secret) c.moment _))

  abbrev expired : Call py encode R D settings → StoredSession → World R D → World R D
  expired c s w = record w {
    redis = R.expire w.redis (key c) (max 1 ((s.absolute_expires_at - c.moment) / 1000000));
  }

  mints :
      (c : Call py encode R D settings) (s : StoredSession) (user : User) (w : World R D)
      → IsCurrent py pyl R laws encode D w.users s user
      → advance py encode R D settings c (confirmed s) w
        ≡ (minted (issued py pyl R laws encode D settings c.draws c.session_id user), expired c s w)
  unfolding advance mint
  mints c s user w k = rw (load_active-eq-ok py pyl R laws encode D (expired c s w) s user k) refl

  -- The interleaving: both read; the first writes and confirms; the second writes and confirms; both
  -- return.
  abbrev pub both :
      Call py encode R D settings
      → Call py encode R D settings
      → World R D
      → Two py encode R D settings
  both a b w =
      interleave py encode R D settings a b
        (false ∷ true ∷ false ∷ false ∷ true ∷ true ∷ false ∷ true ∷ [])
        (record { first = ready; second = ready; world = w })

  written_by : Call py encode R D settings → StoredSession → World R D → World R D
  written_by c s w = record w { redis = hset w.redis (key c) (fields c s) }

  ends :
      (a b : Call py encode R D settings) (s : StoredSession) (user : User) (w : World R D)
      → a.secret ≡ b.secret
      → Live a s w
      → Live b s w
      → s.stored_hash ≡ sha256 a.secret
      → IsCurrent py pyl R laws encode D w.users s user
      → both a b w ≡ record {
        first = minted (issued py pyl R laws encode D settings a.draws a.session_id user);
        second = minted (issued py pyl R laws encode D settings b.draws b.session_id user);
        world = expired b s (expired a s (written_by b s (written_by a s w)));
      }
  unfolding interleave written_by
  ends a b s user w secrets la lb same k =
      let w₁ = written_by a s w in
      let w₂ = written_by b s w₁ in
      rw
        (
          begins a s w la same,
          begins b s w lb (same ∙ ap sha256 secrets),
          writes a s w,
          confirms a s w,
          writes b s w₁,
          confirms b s w₁,
          mints a s user w₂ k,
          mints b s user (expired a s w₂) k,
        )
        refl

  -- Two calls that present the same current secret of a live session, for a user who may refresh,
  -- both return tokens, whatever they drew, if the second has read the session before the first
  -- writes it, and writes it only after the first has confirmed its own hash.
  pub both_mint :
      (a b : Call py encode R D settings) (s : StoredSession) (user : User) (w : World R D)
      → a.session_id ≡ b.session_id
      → a.secret ≡ b.secret
      → Live a s w
      → Live b s w
      → s.stored_hash ≡ sha256 a.secret
      → IsCurrent py pyl R laws encode D w.users s user
      → ((both a b w).first
          ≡ minted (issued py pyl R laws encode D settings a.draws a.session_id user))
        × ((both a b w).second
            ≡ minted (issued py pyl R laws encode D settings b.draws b.session_id user))
  both_mint a b s user w ids secrets la lb same k =
      let e = ends a b s user w secrets la lb same k in (ap (λ t. t.first) e, ap (λ t. t.second) e)
