-- ===== src/Auth/Refresh/Replay.antt =====
-- What a caller of `rotate_refresh_token` sees: one rotation for each secret, and the end of the
-- session when a secret comes back.
use text.Mathlib.TextPositions.{eq_refl}
use lite_mcp.Base.{
  ℕ, ◌+◌, ◌<◌, min, String, false, [], ◌∷◌, ◌++◌, ◌&◌, ◌≡◌, ◌≢◌, ◌∙◌, sym, ap, refl, arith, member,
  if◌then◌else◌,
}
use mathlib.Core.Path.{subst}
use lite_mcp.Base.Exec.{Result, ok, err}
use lite_mcp.Platform.Time.{seconds}
use lite_mcp.Platform.Python.{Stdlib, StdlibLaws}
use lite_mcp.Platform.Redis.{Redis, RedisLaws}
use lite_mcp.Config.{Settings}
use lite_mcp.Db.User.{User}
use lite_mcp.Db.Users.{Users}
use lite_mcp.Auth.Session.{Encode, user_sessions_key, session_environment}
use lite_mcp.Auth.Refresh.{
  RefreshError, session_missing, secret_mismatch, RefreshRotation, World, RotateDraws,
  StoredSession, rotate_refresh_token, load_session,
}
use lite_mcp.Auth.Refresh.Holding.{IsPiece, parse-token, Holds}
use lite_mcp.Auth.Refresh.Rotation.{
  IsCurrent, IsLive, Leaves, Leaves-written, key_of, rotated, issued, reuse_event, Holds-written,
  rotate-eq-session, rotate-eq-ok, rotate-eq-reuse,
}
use lite_mcp.Auth.Session.Keys.{session_key-ne-user_key}

module _ (py : Stdlib) (pyl : StdlibLaws py) (R : Redis) (laws : RedisLaws R) (encode : Encode)
    (D : Users) (settings : Settings) where
  open py use {sha256}
  open R use {exists, smembers}

  -- The outcome of a call: its result, and the world after it.
  abbrev pub Outcome : Type 0
  Outcome = Result RefreshError RefreshRotation × World R D

  module _ (session_id secret : String) (moment : ℕ) (session : StoredSession)
      (d : RotateDraws) where
    abbrev key : String
    key = key_of py pyl R laws encode D settings session_id

    -- The call that presents the secret.
    abbrev pub present : World R D → Outcome
    present w = rotate_refresh_token py encode R D settings d (session_id & "." & secret) moment w

    abbrev pub Live : World R D → Type 0
    Live w = IsLive py pyl R laws encode D settings d session_id secret moment session w

    -- The new tokens are given out, the session has the new secret, the time of the refresh and its
    -- expiry, and the rest is left.
    pub record Succeeds (w : World R D) (user : User) (out : Outcome) : Type 0 where
      pub result : out.0 ≡ ok (issued py pyl R laws encode D settings d session_id user)
      pub holds : Holds py pyl R laws out.1.redis key (record session {
        stored_hash = sha256 d.new_secret;
        idle_expires_at =
            min
              (moment + seconds settings.admin_refresh_idle_ttl_seconds)
              session.absolute_expires_at;
      })
      pub leaves : Leaves py pyl R laws encode D settings moment key session w.redis out.1.redis
      pub users : out.1.users ≡ w.users
      pub audit : out.1.audit ≡ w.audit

    -- The session is gone, and the replay is on record.
    pub record Revokes (w : World R D) (out : Outcome) : Type 0 where
      pub result : out.0 ≡ err secret_mismatch
      pub gone : exists out.1.redis key ≡ false
      pub unlisted :
          member session_id (
            smembers out.1.redis
              (user_sessions_key (session_environment settings) session.user_id_raw))
          ≡ false
      pub audit :
          out.1.audit
          ≡ w.audit
            ++ reuse_event py pyl R laws encode D settings d session_id secret moment session ∷ []
      pub users : out.1.users ≡ w.users

    -- A live session, presented with its current secret by an active user whose password is not
    -- younger than the session, is rotated: the caller gets an access token and a new refresh token
    -- of the same session; Redis then holds the session with the new secret's hash, the time of the
    -- refresh and an idle expiry that is at most the absolute one, its other fields unchanged; its key
    -- expires after the whole seconds that are left to the absolute expiry, at least one; every other
    -- key has its fields, members and expiry as before; and neither the users nor the audit table
    -- change.
    pub rotation-Succeeds :
        (w : World R D) (user : User)
        → Live w
        → session.stored_hash ≡ sha256 secret
        → IsCurrent py pyl R laws encode D w.users session user
        → Succeeds w user (present w)
    rotation-Succeeds w user l same c =
        subst (Succeeds w user)
          (sym (
            rotate-eq-session py pyl R laws encode D settings d session_id secret moment session w l
            ∙ rotate-eq-ok py pyl R laws encode D settings d session_id secret moment session w user
                l same c))
          (record {
            result = refl;
            holds =
                Holds-written py pyl R laws encode D settings d key moment session w.redis l.holds;
            leaves = Leaves-written py pyl R laws encode D settings d key moment session w.redis;
            users = refl;
            audit = refl;
          })

    removed :
        (s : R.State) (k : String) → member session_id (smembers (R.srem s k session_id) k) ≡ false
    removed s k =
        ground (arith, laws.member-srem s k k session_id session_id, eq_refl k, eq_refl session_id)

    -- A secret that is not the current one of a live session ends the session: the call raises
    -- `secret_mismatch`, the session's key is gone and its id no longer among the user's sessions,
    -- one audit event is added and the users are unchanged.
    pub replay-Revokes :
        (w : World R D) → Live w → session.stored_hash ≢ sha256 secret → Revokes w (present w)
    replay-Revokes w l other =
        subst (Revokes w)
          (sym (
            rotate-eq-session py pyl R laws encode D settings d session_id secret moment session w l
            ∙ rotate-eq-reuse py pyl R laws encode D settings d session_id secret moment session w l
                other))
          (record {
            result = refl;
            gone =
                laws.exists-srem _ _ _ _ (λ e. session_key-ne-user_key _ _ _ (sym e))
                ∙ laws.exists-delete w.redis key key
                ∙ ap (λ b. if b then false else exists w.redis key) (eq_refl key);
            unlisted =
                removed (R.delete w.redis key)
                  (user_sessions_key (session_environment settings) session.user_id_raw);
            audit = refl;
            users = refl;
          })

  -- After a rotation the old secret is no longer good: presented once more, while the session is
  -- still live, it ends the session, and so takes the new token's session away too.
  old_secret-Revokes :
      (session_id secret : String) (moment moment₂ : ℕ) (session : StoredSession)
      (d d₂ : RotateDraws) (w : World R D) (user : User)
      → Live session_id secret moment session d w
      → session.stored_hash ≡ sha256 secret
      → IsCurrent py pyl R laws encode D w.users session user
      → sha256 d.new_secret ≢ sha256 secret
      → moment₂ < moment + seconds settings.admin_refresh_idle_ttl_seconds
      → moment₂ < session.absolute_expires_at
      → Revokes session_id secret moment₂
          (rotated py pyl R laws encode D settings d moment session)
          d₂
          (present session_id secret moment session d w).1
          (present session_id secret moment₂
            (rotated py pyl R laws encode D settings d moment session)
            d₂
            (present session_id secret moment session d w).1)
  old_secret-Revokes session_id secret moment moment₂ session d d₂ w user l same c fresh idle abs =
      let ok₁ = rotation-Succeeds session_id secret moment session d w user l same c in
      replay-Revokes session_id secret moment₂
        (rotated py pyl R laws encode D settings d moment session) d₂
        (present session_id secret moment session d w).1
        (record {
          id_piece = l.id_piece;
          secret_piece = l.secret_piece;
          holds = ok₁.holds;
          idle = omega arith;
          absolute = abs;
        })
        fresh

  -- A token whose session is not there is refused, and nothing changes.
  missing_session :
      (session_id secret : String) (moment : ℕ) (d : RotateDraws) (w : World R D)
      → IsPiece session_id
      → IsPiece secret
      → exists w.redis (key_of py pyl R laws encode D settings session_id) ≡ false
      → rotate_refresh_token py encode R D settings d (session_id & "." & secret) moment w
        ≡ (err session_missing, w)
  unfolding rotate_refresh_token load_session
  missing_session session_id secret moment d w a b gone =
      rw (parse-token session_id secret a b, gone) refl
