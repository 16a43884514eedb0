-- ===== src/Auth/Refresh/Lifetime.antt =====
-- The absolute lifetime of a session, over any number of calls.
use lite_mcp.Base.{
  ℕ, ◌≤◌, String, Option, none, some, List, [], ◌∷◌, ◌≡◌, ◌⊎◌, inl, inr, ◌∙◌, refl, ap, lookup,
  arith,
}
use lite_mcp.Base.Tests.{leb-true}
use lite_mcp.Base.Maybe.{>>=-eq-some}
use lite_mcp.Base.Exec.{Result, ok, err, Result-cases}
use lite_mcp.Platform.Python.{Stdlib, StdlibLaws}
use lite_mcp.Platform.Redis.{Redis, RedisLaws}
use lite_mcp.Config.{Settings}
use lite_mcp.Db.Users.{Users}
use lite_mcp.Auth.Session.{Encode}
use lite_mcp.Auth.Refresh.{
  RefreshError, absolute_expired, RefreshRotation, World, RotateDraws, StoredSession, load_session,
  iso_field, read_session, parse_refresh_token, rotate_refresh_token, rotate_session, check_live,
}
use lite_mcp.Auth.Refresh.Limit.{limit_of, key_of, Lasts, Lasts-trans, rotate-Lasts}

abbrev absolute_of : Option StoredSession → Option ℕ
absolute_of none = none
absolute_of (some session) = some session.absolute_expires_at

read-absolute :
    (py : Stdlib) (fields : List (String × String)) (session : StoredSession)
    → read_session py fields ≡ some session
    → iso_field py "absolute_expires_at" fields ≡ some session.absolute_expires_at
unfolding read_session
read-absolute py fields session h =
    let (_, _, h1) = >>=-eq-some (iso_field py "created_at" fields) _ session h in
    let (_, _, h2) = >>=-eq-some (iso_field py "idle_expires_at" fields) _ session h1 in
    let (a, absolute, h3) = >>=-eq-some (iso_field py "absolute_expires_at" fields) _ session h2 in
    let (_, _, h4) = >>=-eq-some (lookup "current_secret_hash" fields) _ session h3 in
    let (_, _, h5) = >>=-eq-some (lookup "user_id" fields) _ session h4 in
    absolute ∙ ap absolute_of h5

module _ (py : Stdlib) (pyl : StdlibLaws py) (R : Redis) (laws : RedisLaws R) (encode : Encode)
    (D : Users) (settings : Settings) where
  open R use {State, exists, hgetall, hset, expire, delete, srem}

  load-reads :
      (key : String) (w : World R D) (session : StoredSession)
      → (load_session py encode R D key w).0 ≡ ok session
      → read_session py (hgetall w.redis key) ≡ some session
  unfolding load_session
  load-reads key w session h = ground (arith, h)

  -- The session that is read of a key has the expiry of the field.
  loaded-end :
      (key : String) (w : World R D) (session : StoredSession) (end : ℕ)
      → (load_session py encode R D key w).0 ≡ ok session
      → (limit_of py pyl R laws encode D settings key w ≡ none)
        ⊎ (limit_of py pyl R laws encode D settings key w ≡ some (py.isoformat end))
      → session.absolute_expires_at ≡ end
  loaded-end key w session end h found =
      let read = read-absolute py (hgetall w.redis key) session (load-reads key w session h) in
      elim found [
        | inl e ↦ absurd (ground (arith, e, read))
        | inr e ↦ ground (arith, e, read, pyl.fromisoformat-isoformat end)
      ]

  pub record Presentation : Type 0 where
    pub draws : RotateDraws
    pub token : String
    pub moment : ℕ

  abbrev pub rotate : Presentation → World R D → Result RefreshError RefreshRotation × World R D
  rotate c w = rotate_refresh_token py encode R D settings c.draws c.token c.moment w

  -- The world after calls that follow one another.
  pub after : List Presentation → World R D → World R D
  after [] w = w
  after (c ∷ cs) w = after cs (rotate c w).1

  after-Lasts :
      (id : String) (cs : List Presentation) (w : World R D)
      → Lasts py pyl R laws encode D settings id w (after cs w)
  unfolding after
  after-Lasts id [] w = inr refl
  after-Lasts id (c ∷ cs) w =
      Lasts-trans py pyl R laws encode D settings id w (rotate c w).1 (after cs (rotate c w).1)
        (rotate-Lasts py pyl R laws encode D settings id c.draws c.token c.moment w)
        (after-Lasts id cs (rotate c w).1)

  late-IsRefused :
      (c : Presentation) (id secret : String) (end : ℕ) (w : World R D)
      → parse_refresh_token c.token ≡ some (id, secret)
      → end ≤ c.moment
      → (limit_of py pyl R laws encode D settings (key_of py pyl R laws encode D settings id) w
          ≡ none)
        ⊎ (limit_of py pyl R laws encode D settings (key_of py pyl R laws encode D settings id) w
            ≡ some (py.isoformat end))
      → (e : RefreshError) × ((rotate c w).0 ≡ err e)
  unfolding rotate_refresh_token rotate_session check_live
  late-IsRefused c id secret end w parsed late found =
      elim (Result-cases
        (load_session py encode R D (key_of py pyl R laws encode D settings id) w).0) [
          | inr (e, failed) ↦ (e, rw (parsed, failed) refl)
          | inl (session, loaded) ↦ (
            absolute_expired,
            rw
                (
                  parsed,
                  loaded,
                  loaded-end (key_of py pyl R laws encode D settings id) w session end loaded found,
                  leb-true end c.moment late,
                )
                refl,
          )
        ]

  -- However often a session is refreshed, with whatever tokens and at whatever times, its absolute
  -- expiry stays the one that it was stored with: a call for the session at that time or later is
  -- refused.
  pub lifetime_bound :
      (id secret : String) (end : ℕ) (w : World R D) (cs : List Presentation) (c : Presentation)
      → limit_of py pyl R laws encode D settings (key_of py pyl R laws encode D settings id) w
        ≡ some (py.isoformat end)
      → parse_refresh_token c.token ≡ some (id, secret)
      → end ≤ c.moment
      → (e : RefreshError) × ((rotate c (after cs w)).0 ≡ err e)
  lifetime_bound id secret end w cs c stored parsed late =
      late-IsRefused c id secret end (after cs w) parsed late
        (elim (after-Lasts id cs w) [ inl gone ↦ inl gone | inr same ↦ inr (same ∙ stored) ])
