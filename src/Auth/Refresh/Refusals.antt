-- ===== src/Auth/Refresh/Refusals.antt =====
-- A user who may not refresh: the call is refused, after the secret was replaced.
use lite_mcp.Base.{ℕ, String, some, ◌&◌, ◌≡◌, ◌≢◌, ◌∙◌, sym, refl, eq_iff}
use mathlib.Core.Path.{subst}
use lite_mcp.Base.Tests.{leb-false}
use lite_mcp.Base.Exec.{Result, err}
use lite_mcp.Platform.Python.{Stdlib, StdlibLaws}
use lite_mcp.Platform.Redis.{Redis, RedisLaws}
use lite_mcp.Config.{Settings}
use lite_mcp.Db.User.{User}
use lite_mcp.Db.Users.{Users}
use lite_mcp.Auth.Session.{Encode}
use lite_mcp.Auth.Refresh.{
  RefreshError, user_not_active, RefreshRotation, World, RotateDraws, StoredSession,
  load_active_user, rotate_session, rotate_live, rotate_refresh_token,
}
use lite_mcp.Auth.Refresh.Holding.{Holds}
use lite_mcp.Base.Tests.{str_ne}
use lite_mcp.Auth.Refresh.Rotation.{
  IsLive, key_of, rotated, written, write_secret-eq-ok, Holds-written, rotate-eq-session,
}

module _ (py : Stdlib) (pyl : StdlibLaws py) (R : Redis) (laws : RedisLaws R) (encode : Encode)
    (D : Users) (settings : Settings) where
  open py use {sha256, uuid_parse}

  load-inactive :
      (w : World R D) (session : StoredSession) (i : ℕ) (user : User)
      → uuid_parse session.user_id_raw ≡ some i
      → D.get_user w.users i ≡ some user
      → user.status ≢ "active"
      → load_active_user py encode R D session w ≡ (err user_not_active, w)
  unfolding load_active_user
  load-inactive w session i user p f n =
      rw (p, f, load_active_user) (rw (str_ne user.status "active" n) refl)

  module _ (d : RotateDraws) (session_id secret : String) (moment : ℕ) (session : StoredSession)
      (w : World R D) where
    abbrev key : String
    key = key_of py pyl R laws encode D settings session_id

    abbrev after : World R D
    after = record w {
      redis = written py pyl R laws encode D settings d key moment session w.redis;
    }

    rotate_live-inactive :
        (i : ℕ) (user : User)
        → uuid_parse session.user_id_raw ≡ some i
        → D.get_user w.users i ≡ some user
        → user.status ≢ "active"
        → rotate_live py encode R D settings d session_id moment session w
          ≡ (err user_not_active, after)
    unfolding rotate_live written
    rotate_live-inactive i user p f n =
        rw
          (
            write_secret-eq-ok py pyl R laws encode D settings d key moment session w,
            load-inactive after session i user p f n,
          )
          refl

    -- The outcome of a refused call.
    pub record IsRefused (out : Result RefreshError RefreshRotation × World R D) : Type 0 where
      pub result : out.0 ≡ err user_not_active
      pub replaced :
          Holds py pyl R laws out.1.redis key
            (rotated py pyl R laws encode D settings d moment session)
      pub audit : out.1.audit ≡ w.audit

    session-inactive :
        (i : ℕ) (user : User)
        → IsLive py pyl R laws encode D settings d session_id secret moment session w
        → session.stored_hash ≡ sha256 secret
        → uuid_parse session.user_id_raw ≡ some i
        → D.get_user w.users i ≡ some user
        → user.status ≢ "active"
        → rotate_session py encode R D settings d session_id secret moment session w
          ≡ (err user_not_active, after)
    unfolding rotate_session
    session-inactive i user l same p f n =
        rw
          (
            leb-false _ _ l.absolute,
            leb-false _ _ l.idle,
            (eq_iff session.stored_hash (sha256 secret)).1 same,
            rotate_live-inactive i user p f n,
          )
          refl

    -- The current secret of a live session, presented for a user who is not active, is refused with
    -- `user_not_active` and no audit event; but Redis by then holds the session under the new
    -- secret's hash, which the caller is never given.
    inactive-IsRefused :
        (i : ℕ) (user : User)
        → IsLive py pyl R laws encode D settings d session_id secret moment session w
        → session.stored_hash ≡ sha256 secret
        → uuid_parse session.user_id_raw ≡ some i
        → D.get_user w.users i ≡ some user
        → user.status ≢ "active"
        → IsRefused
            (rotate_refresh_token py encode R D settings d (session_id & "." & secret) moment w)
    inactive-IsRefused i user l same p f n =
        subst IsRefused
          (sym (
            rotate-eq-session py pyl R laws encode D settings d session_id secret moment session w l
            ∙ session-inactive i user l same p f n))
          (record {
            result = refl;
            replaced =
                Holds-written py pyl R laws encode D settings d key moment session w.redis l.holds;
            audit = refl;
          })
