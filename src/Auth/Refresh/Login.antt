-- ===== src/Auth/Refresh/Login.antt =====
-- A login session (session.py) is one that a refresh accepts.
use text.Mathlib.TextPositions.{eq_refl}
use lite_mcp.Base.{
  ℕ, ◌+◌, ◌<◌, ◌≤◌, String, false, some, ◌≡◌, ◌≢◌, ◌∙◌, sym, is_nil, refl, arith, lookup, or_else,
}
use lite_mcp.Platform.Time.{as_utc, seconds}
use lite_mcp.Platform.Python.{Stdlib, StdlibLaws}
use lite_mcp.Platform.Redis.{Redis, RedisLaws}
use lite_mcp.Config.{Settings}
use lite_mcp.Db.User.{User}
use lite_mcp.Db.Users.{Users}
use lite_mcp.Auth.Session.{
  Encode, LoginDraws, session_environment, admin_session_key, user_sessions_key, session_fields,
  create_login_session,
}
use lite_mcp.Auth.Session.Keys.{session_key-ne-user_key}
use lite_mcp.Auth.Refresh.{World, RotateDraws, StoredSession, read_session, rotate_refresh_token}
use lite_mcp.Auth.Refresh.Holding.{IsPiece, Holds, Holds-expire, not-nil-of-lookup}
use lite_mcp.Auth.Refresh.Replay.{Succeeds, rotation-Succeeds}

module _ (py : Stdlib) (pyl : StdlibLaws py) (R : Redis) (laws : RedisLaws R) (encode : Encode)
    (settings : Settings) where
  open py use {sha256, isoformat, uuid_str, uuid_parse}
  open R use {State, hset, hgetall, exists}

  -- What a refresh reads of the session of a login.
  abbrev pub stored : LoginDraws → User → StoredSession
  stored l user = record {
    created_at = l.now;
    idle_expires_at = l.now + seconds settings.admin_refresh_idle_ttl_seconds;
    absolute_expires_at = l.now + seconds settings.admin_refresh_absolute_ttl_seconds;
    stored_hash = sha256 l.random_secret;
    user_id_raw = uuid_str user.id;
  }

  abbrev FieldOf : State → String → LoginDraws → User → String → Type 0
  FieldOf s key l user f =
      lookup f (hgetall (hset s key (session_fields py encode user settings l)) key)
      ≡ or_else (lookup f (session_fields py encode user settings l)) (lookup f (hgetall s key))

  field :
      (s : State) (key : String) (l : LoginDraws) (user : User) (f : String)
      → FieldOf s key l user f
  field s key l user f =
      laws.hgetall-hset s key key f (session_fields py encode user settings l)
      ∙ rw (eq_refl key) refl

  reads-login :
      (s : State) (key : String) (l : LoginDraws) (user : User)
      → read_session py (hgetall (hset s key (session_fields py encode user settings l)) key)
        ≡ some (stored l user)
  unfolding read_session session_fields lookup
  reads-login s key l user = ground (
    arith,
    field s key l user "created_at",
    field s key l user "idle_expires_at",
    field s key l user "absolute_expires_at",
    field s key l user "current_secret_hash",
    field s key l user "user_id",
    pyl.fromisoformat-isoformat l.now,
    pyl.fromisoformat-isoformat (l.now + seconds settings.admin_refresh_idle_ttl_seconds),
    pyl.fromisoformat-isoformat (l.now + seconds settings.admin_refresh_absolute_ttl_seconds),
  )

  abbrev pub key : LoginDraws → String
  key l = admin_session_key (session_environment settings) l.session_id

  has_fields :
      (s : State) (k : String) (l : LoginDraws) (user : User)
      → is_nil (hgetall (hset s k (session_fields py encode user settings l)) k) ≡ false
  unfolding session_fields lookup
  has_fields s k l user =
      not-nil-of-lookup "user_id" (uuid_str user.id)
        (hgetall (hset s k (session_fields py encode user settings l)) k)
        (field s k l user "user_id")

  apart :
      (a u : String)
      → user_sessions_key (session_environment settings) u
        ≢ admin_session_key (session_environment settings) a
  apart a u e = session_key-ne-user_key (session_environment settings) a u (sym e)

  -- A member added to a user's set leaves the session.
  Holds-sadd :
      (s : State) (u x session_id : String) (session : StoredSession)
      → Holds py pyl R laws s (admin_session_key (session_environment settings) session_id) session
      → Holds py pyl R laws
          (R.sadd s (user_sessions_key (session_environment settings) u) x)
          (admin_session_key (session_environment settings) session_id)
          session
  Holds-sadd s u x session_id session h = record {
    there =
        laws.exists-sadd s (user_sessions_key (session_environment settings) u)
          (admin_session_key (session_environment settings) session_id) x (apart session_id u)
        ∙ h.there;
    fields =
        rw
          (laws.hgetall-sadd s (user_sessions_key (session_environment settings) u)
            (admin_session_key (session_environment settings) session_id) x (apart session_id u))
          h.fields;
    reads =
        rw
          (laws.hgetall-sadd s (user_sessions_key (session_environment settings) u)
            (admin_session_key (session_environment settings) session_id) x (apart session_id u))
          h.reads;
  }

  -- The key of the session after the three commands of a login.
  pub Holds-login :
      (l : LoginDraws) (user : User) (s : State)
      → 0 < settings.admin_refresh_absolute_ttl_seconds
      → Holds py pyl R laws
          (create_login_session py encode R settings l user s).1
          (key l)
          (stored l user)
  unfolding create_login_session
  Holds-login l user s pos =
      Holds-sadd _ (uuid_str user.id) l.session_id l.session_id (stored l user) (
        Holds-expire py pyl R laws _ (key l) _ (stored l user) pos (record {
          there =
              laws.exists-hset s (key l) (key l) (session_fields py encode user settings l)
              ∙ rw (eq_refl (key l)) refl;
          fields = has_fields s (key l) l user;
          reads = reads-login s (key l) l user;
        }))

  abbrev pub login : {D : Users} → LoginDraws → User → World R D → World R D
  login l user w = record w { redis = (create_login_session py encode R settings l user w.redis).1 }

  -- The refresh token that a login returns is good for a refresh: at any moment before the idle and the absolute
  -- lifetime are over, for a user who is active, is stored under its id and has not changed its
  -- password since, the rotation of the session succeeds, where the two drawn texts are not empty
  -- and hold no dot.
  pub login_then_refresh :
      (D : Users) (l : LoginDraws) (user : User) (d : RotateDraws) (moment : ℕ) (w : World R D)
      → IsPiece l.session_id
      → IsPiece l.random_secret
      → 0 < settings.admin_refresh_absolute_ttl_seconds
      → moment < l.now + seconds settings.admin_refresh_idle_ttl_seconds
      → moment < l.now + seconds settings.admin_refresh_absolute_ttl_seconds
      → D.get_user w.users user.id ≡ some user
      → user.status ≡ "active"
      → as_utc user.password_changed_at ≤ l.now
      → Succeeds py pyl R laws encode D settings l.session_id l.random_secret moment
          (stored l user)
          d
          (login l user w)
          user
          (rotate_refresh_token py encode R D settings d
            (create_login_session py encode R settings l user w.redis).0.refresh_token
            moment
            (login l user w))
  unfolding create_login_session
  login_then_refresh D l user d moment w a b pos idle abs found active old =
      rotation-Succeeds py pyl R laws encode D settings l.session_id l.random_secret moment
        (stored l user) d (login l user w) user
        (record {
          id_piece = a;
          secret_piece = b;
          holds = Holds-login l user w.redis pos;
          idle = idle;
          absolute = abs;
        })
        refl
        (record {
          id = user.id;
          parses = pyl.uuid_parse-str user.id;
          found = found;
          active = active;
          same_password = old;
        })
