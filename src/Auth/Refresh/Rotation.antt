-- ===== src/Auth/Refresh/Rotation.antt =====
-- A rotation of a live session with its current secret.
use lite_mcp.Base.{
  ℕ, ◌+◌, ◌-◌, ◌/◌, ◌<◌, ◌≤◌, max, min, String, none, some, List, [], ◌∷◌, ◌∙◌, sym, ap, eq_refl,
  or_else, ◌==◌, ◌&◌, ◌≡◌, ◌≢◌, refl, arith, eq_iff, Option-cases, inl, inr, is_none, ◌++◌, lookup,
  if◌then◌else◌,
}
use lite_mcp.Base.Tests.{leb-false}
use lite_mcp.Base.Exec.{ok, err}
use lite_mcp.Platform.Time.{aware, as_utc, seconds}
use lite_mcp.Platform.Python.{Stdlib, StdlibLaws}
use lite_mcp.Platform.Redis.{Redis, RedisLaws}
use lite_mcp.Config.{Settings}
use lite_mcp.Db.User.{User}
use lite_mcp.Db.Users.{Users}
use lite_mcp.Db.AuditEvent.{AuditEvent}
use lite_mcp.Auth.Session.{
  Encode, user_sessions_key, session_environment, admin_session_key, build_access_token,
}
use lite_mcp.Auth.Refresh.{
  revoke_refresh_family_on_reuse, secret_mismatch, RefreshRotation, World, RotateDraws,
  StoredSession, rotated_fields, load_session, write_secret, load_active_user, rotate_live,
  rotate_session, rotate_refresh_token,
}
use lite_mcp.Auth.Refresh.Holding.{
  IsPiece, parse-token, guard-confirmed, Holds, Holds-hset, Holds-expire, hash-hset,
}
use lite_mcp.Base.Tests.{str_ne}

module _ (py : Stdlib) (pyl : StdlibLaws py) (R : Redis) (laws : RedisLaws R) (encode : Encode)
    (D : Users) where
  open py use {sha256, isoformat, uuid_parse}
  open R use {State, exists, hgetall, hset, expire, ttl, smembers}

  -- `_load_user` finds an active account whose password is as old as the session.
  pub record IsCurrent (users : D.State) (session : StoredSession) (user : User) : Type 0 where
    pub id : ℕ
    pub parses : uuid_parse session.user_id_raw ≡ some id
    pub found : D.get_user users id ≡ some user
    pub active : user.status ≡ "active"
    pub same_password : as_utc user.password_changed_at ≤ session.created_at

  pub load_active-eq-ok :
      (w : World R D) (session : StoredSession) (user : User)
      → IsCurrent w.users session user
      → load_active_user py encode R D session w ≡ (ok user, w)
  unfolding load_active_user
  load_active-eq-ok w session user c =
      rw (c.parses, c.found, load_active_user)
        (ground (arith, eq_iff user.status "active", c.active, c.same_password))

  pub load_session-eq-ok :
      (w : World R D) (key : String) (session : StoredSession)
      → Holds py pyl R laws w.redis key session
      → load_session py encode R D key w ≡ (ok session, w)
  unfolding load_session
  load_session-eq-ok w key session h = rw (h.there, h.fields, h.reads)

  module _ (settings : Settings) where
    abbrev pub key_of : String → String
    key_of session_id = admin_session_key (session_environment settings) session_id

    -- The session after a rotation at `moment`.
    abbrev pub rotated : RotateDraws → ℕ → StoredSession → StoredSession
    rotated d moment session = record session {
      stored_hash = sha256 d.new_secret;
      idle_expires_at =
          min (moment + seconds settings.admin_refresh_idle_ttl_seconds)
            session.absolute_expires_at;
    }

    -- Redis after a rotation that came as far as the new expiry of the key.
    unfoldable pub written : RotateDraws → String → ℕ → StoredSession → State → State
    written d key moment session s =
        expire
          (hset s key (
            rotated_fields py (sha256 d.new_secret) moment
              (rotated d moment session).idle_expires_at))
          key (max 1 ((session.absolute_expires_at - moment) / 1000000))

    pub Holds-written :
        (d : RotateDraws) (key : String) (moment : ℕ) (session : StoredSession) (s : State)
        → Holds py pyl R laws s key session
        → Holds py pyl R laws (written d key moment session s) key (rotated d moment session)
    unfolding written
    Holds-written d key moment session s h =
        Holds-expire py pyl R laws _ key _ _ (omega arith)
          (Holds-hset py pyl R laws s key _ moment _ session h)

    abbrev seconds_left : ℕ → StoredSession → ℕ
    seconds_left moment session = max 1 ((session.absolute_expires_at - moment) / 1000000)

    -- What a rotation does to the rest of Redis: nothing at another key, and at the key of the session
    -- the time of the refresh and the expiry; a field that it does not write is kept.
    pub record Leaves (moment : ℕ) (key : String) (session : StoredSession) (s t : State)
        : Type 0 where
      pub refreshed : lookup "last_refreshed_at" (hgetall t key) ≡ some (isoformat moment)
      pub kept :
          (f : String)
          → f ≢ "current_secret_hash"
          → f ≢ "last_refreshed_at"
          → f ≢ "idle_expires_at"
          → lookup f (hgetall t key) ≡ lookup f (hgetall s key)
      pub expires : ttl t key ≡ some (seconds_left moment session)
      pub others :
          (j : String)
          → key ≢ j
          → (exists t j ≡ exists s j)
            × (ttl t j ≡ ttl s j)
            × (smembers t j ≡ smembers s j)
            × ((f : String) → lookup f (hgetall t j) ≡ lookup f (hgetall s j))

    module _ (d : RotateDraws) (key : String) (moment : ℕ) (session : StoredSession)
        (s : State) where
      abbrev fields : List (String × String)
      fields =
          rotated_fields py (sha256 d.new_secret) moment (rotated d moment session).idle_expires_at

      pub hgetall-written :
          (j f : String)
          → lookup f (hgetall (written d key moment session s) j) ≡ (
              if key == j
              then or_else (lookup f fields) (lookup f (hgetall s j))
              else lookup f (hgetall s j))
      unfolding written
      hgetall-written j f =
          ap (lookup f) (
            laws.hgetall-expire (hset s key fields) key j (seconds_left moment session)
              (omega arith))
          ∙ laws.hgetall-hset s key j f fields

      ttl-written :
          (j : String)
          → ttl (written d key moment session s) j
            ≡ (if key == j then some (seconds_left moment session) else ttl s j)
      unfolding written
      ttl-written j =
          laws.ttl-expire (hset s key fields) key j (seconds_left moment session) (omega arith)
            (laws.exists-hset s key key fields ∙ rw (eq_refl key) refl)
          ∙ rw (laws.ttl-hset s key j fields) refl

      pub Leaves-written : Leaves moment key session s (written d key moment session s)
      unfolding lookup rotated_fields
      Leaves-written = record {
        refreshed = hgetall-written key "last_refreshed_at" ∙ rw (eq_refl key) refl;
        kept = λ f a b c.
            hgetall-written key f
            ∙ rw
                (
                  eq_refl key,
                  str_ne "current_secret_hash" f (λ e. a (sym e)),
                  str_ne "last_refreshed_at" f (λ e. b (sym e)),
                  str_ne "idle_expires_at" f (λ e. c (sym e)),
                )
                refl;
        expires = ttl-written key ∙ rw (eq_refl key) refl;
        others = λ j ne. (
          unfold written in
              laws.exists-expire (hset s key fields) key j (seconds_left moment session)
                (omega arith)
              ∙ laws.exists-hset s key j fields
              ∙ rw (str_ne key j ne) refl,
          ttl-written j ∙ rw (str_ne key j ne) refl,
          unfold written in
              laws.smembers-expire (hset s key fields) key j (seconds_left moment session)
                (omega arith)
              ∙ laws.smembers-hset s key j fields ne,
          λ f. hgetall-written j f ∙ rw (str_ne key j ne) refl,
        );
      }

    -- The result of a rotation.
    abbrev pub issued : RotateDraws → String → User → RefreshRotation
    issued d session_id user =
        let (access_token, expires_in) =
          build_access_token py encode user session_id settings d.jti d.token_now in
        record {
          access_token = access_token;
          refresh_token = session_id & "." & d.new_secret;
          expires_in = expires_in;
        }

    pub write_secret-eq-ok :
        (d : RotateDraws) (key : String) (moment : ℕ) (session : StoredSession) (w : World R D)
        → write_secret py encode R D settings d key moment session w ≡ (
          ok tt,
          record w {
            redis = hset w.redis key (
                rotated_fields py
                  (sha256 d.new_secret)
                  moment
                  (rotated d moment session).idle_expires_at);
          },
        )
    unfolding write_secret
    write_secret-eq-ok d key moment session w =
        guard-confirmed
          (lookup "current_secret_hash" (
            hgetall
              (hset w.redis key (
                rotated_fields py (sha256 d.new_secret) moment
                  (rotated d moment session).idle_expires_at))
              key))
          (sha256 d.new_secret) secret_mismatch _
          (hash-hset py pyl R laws w.redis key (sha256 d.new_secret) moment
            (rotated d moment session).idle_expires_at)

    rotate_live-eq-ok :
        (d : RotateDraws) (session_id : String) (moment : ℕ) (session : StoredSession) (user : User)
        (w : World R D)
        → IsCurrent w.users session user
        → rotate_live py encode R D settings d session_id moment session w ≡ (
          ok (issued d session_id user),
          record w { redis = written d (key_of session_id) moment session w.redis },
        )
    unfolding rotate_live written
    rotate_live-eq-ok d session_id moment session user w c =
        rw
          (
            write_secret-eq-ok d (key_of session_id) moment session w,
            load_active-eq-ok
                (record w { redis = written d (key_of session_id) moment session w.redis }) session
                user c,
          )
          refl

    module _ (d : RotateDraws) (session_id secret : String) (moment : ℕ)
        (session : StoredSession) where
      -- A live session and a well-formed token for it.
      pub record IsLive (w : World R D) : Type 0 where
        pub id_piece : IsPiece session_id
        pub secret_piece : IsPiece secret
        pub holds : Holds py pyl R laws w.redis (key_of session_id) session
        pub idle : moment < session.idle_expires_at
        pub absolute : moment < session.absolute_expires_at

      pub rotate-eq-session :
          (w : World R D)
          → IsLive w
          → rotate_refresh_token py encode R D settings d (session_id & "." & secret) moment w
            ≡ rotate_session py encode R D settings d session_id secret moment session w
      unfolding rotate_refresh_token
      rotate-eq-session w l =
          rw
            (
              parse-token session_id secret l.id_piece l.secret_piece,
              load_session-eq-ok w (key_of session_id) session l.holds,
            )
            refl

      pub rotate-eq-ok :
          (w : World R D) (user : User)
          → IsLive w
          → session.stored_hash ≡ sha256 secret
          → IsCurrent w.users session user
          → rotate_session py encode R D settings d session_id secret moment session w ≡ (
            ok (issued d session_id user),
            record w { redis = written d (key_of session_id) moment session w.redis },
          )
      unfolding rotate_session
      rotate-eq-ok w user l same c =
          rw
            (
              leb-false _ _ l.absolute,
              leb-false _ _ l.idle,
              (eq_iff session.stored_hash (sha256 secret)).1 same,
              rotate_live-eq-ok d session_id moment session user w c,
            )
            refl

      -- Redis after a replay was detected.
      abbrev pub revoked : State → State
      revoked s =
          R.srem (R.delete s (key_of session_id))
            (user_sessions_key (session_environment settings) session.user_id_raw) session_id

      -- The audit event of a replay.
      abbrev pub reuse_event : AuditEvent
      reuse_event = record {
        id = d.event_id;
        occurred_at = aware moment;
        request_id = d.request_id;
        actor_type = if is_none (uuid_parse session.user_id_raw) then "anonymous" else "user";
        actor_id =
            if is_none (uuid_parse session.user_id_raw) then none else some session.user_id_raw;
        action = "auth.refresh_reuse_detected";
        resource_type = "admin_session";
        resource_id = some session_id;
        service_id = none;
        result = "denied";
        reason_code = some "refresh_reuse_detected";
        source_ip = none;
        user_agent = none;
        changes = none;
        meta = none;
        previous_event_hash = none;
        event_hash = none;
      }

      pub rotate-eq-reuse :
          (w : World R D)
          → IsLive w
          → session.stored_hash ≢ sha256 secret
          → rotate_session py encode R D settings d session_id secret moment session w ≡ (
            err secret_mismatch,
            record w { redis = revoked w.redis; audit = w.audit ++ reuse_event ∷ [] },
          )
      unfolding rotate_session revoke_refresh_family_on_reuse
      rotate-eq-reuse w l other =
          rw
            (
              leb-false _ _ l.absolute,
              leb-false _ _ l.idle,
              str_ne session.stored_hash (sha256 secret) other,
            )
            (elim (Option-cases (uuid_parse session.user_id_raw)) [
              | inl e ↦ rw e refl
              | inr (i, e) ↦ rw e refl
            ])
