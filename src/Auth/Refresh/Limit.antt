-- ===== src/Auth/Refresh/Limit.antt =====
-- The field with the absolute expiry of a session, over a call.
use lite_mcp.Base.{
  ℕ, ◌-◌, ◌/◌, max, String, Bool, true, false, Option, none, List, [], ◌≡◌, ◌⊎◌, inl, inr, ◌∙◌, sym,
  refl, ap, ◌==◌, leb, lookup, if◌then◌else◌, arith, Bool-cases, Option-cases,
}
use lite_mcp.Base.Exec.{Result, ok, err, continue, guard}
use lite_mcp.Platform.Python.{Stdlib, StdlibLaws}
use lite_mcp.Platform.Redis.{Redis, RedisLaws}
use lite_mcp.Config.{Settings}
use lite_mcp.Db.Users.{Users}
use lite_mcp.Auth.Session.{Encode, session_environment, admin_session_key, user_sessions_key}
use lite_mcp.Auth.Session.Keys.{session_key-ne-user_key}
use lite_mcp.Auth.Refresh.{
  RefreshError, World, RotateDraws, StoredSession, Step, load_session, compare_refresh_secret,
  rotated_fields, parse_refresh_token, rotate_refresh_token, rotate_session, check_live,
  rotate_live, write_secret, write_new_secret, confirm_secret, mint, load_active_user,
  revoke_refresh_family_on_reuse, persist_refresh_reuse_audit,
}

either {ℓ} : {A : Type ℓ} (b : Bool) (x : A) → (if b then x else x) ≡ x
either true x = refl
either false x = refl

cleared :
    (b : Bool) (f : String) (d : List (String × String))
    → (lookup f (if b then [] else d) ≡ none) ⊎ (lookup f (if b then [] else d) ≡ lookup f d)
unfolding lookup
cleared true f d = inl refl
cleared false f d = inr refl

module _ (py : Stdlib) (pyl : StdlibLaws py) (R : Redis) (laws : RedisLaws R) (encode : Encode)
    (D : Users) (settings : Settings) where
  open R use {State, exists, hgetall, hset, expire, delete, srem}

  abbrev pub key_of : String → String
  key_of session_id = admin_session_key (session_environment settings) session_id

  -- The field that holds the absolute expiry of a session.
  abbrev pub limit_of : String → World R D → Option String
  limit_of key w = lookup "absolute_expires_at" (hgetall w.redis key)

  module _ (session_id : String) where
    abbrev limit : World R D → Option String
    limit w = limit_of (key_of session_id) w

    -- The field is as it was, or gone.
    abbrev pub Lasts : World R D → World R D → Type 0
    Lasts w w' = (limit w' ≡ none) ⊎ (limit w' ≡ limit w)

    pub Lasts-trans : (w w' w'' : World R D) → Lasts w w' → Lasts w' w'' → Lasts w w''
    Lasts-trans w w' w'' a (inl h) = inl h
    Lasts-trans w w' w'' (inl g) (inr h) = inl (h ∙ g)
    Lasts-trans w w' w'' (inr g) (inr h) = inr (h ∙ g)

    Lasts-continue :
        {A B : Type 0} (r : Result RefreshError A) (f : A → Step py encode R D B) (w w' : World R D)
        → Lasts w w'
        → ((a : A) (v : World R D) → Lasts v (f a v).1)
        → Lasts w (continue r f w').1
    Lasts-continue (ok a) f w w' h k = Lasts-trans w w' (f a w').1 h (k a w')
    Lasts-continue (err e) f w w' h k = h

    Lasts-guard :
        (b : Bool) (e : RefreshError) (w w' : World R D) → Lasts w w' → Lasts w (guard b e w').1
    Lasts-guard true e w w' h = h
    Lasts-guard false e w w' h = h

    hset-Lasts :
        (key hash : String) (last idle : ℕ) (w : World R D)
        → Lasts w (record w { redis = hset w.redis key (rotated_fields py hash last idle) })
    unfolding rotated_fields lookup
    hset-Lasts key hash last idle w = inr (
        laws.hgetall-hset w.redis key (key_of session_id) "absolute_expires_at"
          (rotated_fields py hash last idle)
        ∙ either (key == key_of session_id) (limit w))

    load-same : (key : String) (w : World R D) → (load_session py encode R D key w).1 ≡ w
    unfolding load_session
    load-same key w = ground arith

    load_user-same :
        (session : StoredSession) (w : World R D) → (load_active_user py encode R D session w).1 ≡ w
    unfolding load_active_user
    load_user-same session w = ground arith

    write-Lasts :
        (d : RotateDraws) (key : String) (moment : ℕ) (session : StoredSession) (w : World R D)
        → Lasts w (write_secret py encode R D settings d key moment session w).1
    unfolding write_secret write_new_secret confirm_secret
    write-Lasts d key moment session w = Lasts-guard _ _ w _ (hset-Lasts key _ moment _ w)

    mint-Lasts :
        (d : RotateDraws) (moment : ℕ) (id : String) (session : StoredSession) (w : World R D)
        → Lasts w (mint py encode R D settings d id moment session w).1
    unfolding mint
    mint-Lasts d moment id session w =
        let w' : World R D = record w {
          redis =
              expire w.redis (key_of id) (max 1 ((session.absolute_expires_at - moment) / 1000000));
        } in
        Lasts-continue (load_active_user py encode R D session w').0 _ w _
          (rw (load_user-same session w') (
            inr (
              ap (lookup "absolute_expires_at")
                (laws.hgetall-expire w.redis (key_of id) (key_of session_id) _ (omega arith)))))
          (λ user v. inr refl)

    revoke-Lasts :
        (d : RotateDraws) (id raw : String) (now : ℕ) (w : World R D)
        → Lasts w (revoke_refresh_family_on_reuse py encode R D settings d id raw now w).1
    unfolding revoke_refresh_family_on_reuse persist_refresh_reuse_audit
    revoke-Lasts d id raw now w =
        let s = delete w.redis (key_of id) in
        let users = user_sessions_key (session_environment settings) raw in
        rw
          (
            laws.hgetall-srem s users (key_of session_id) id (λ e.
                session_key-ne-user_key (session_environment settings) session_id raw (sym e)),
            laws.hgetall-delete w.redis (key_of id) (key_of session_id),
          )
          (cleared (key_of id == key_of session_id) "absolute_expires_at"
            (hgetall w.redis (key_of session_id)))

    check-Lasts :
        (d : RotateDraws) (id secret : String) (moment : ℕ) (session : StoredSession)
        (w : World R D)
        → Lasts w (check_live py encode R D settings d id secret moment session w).1
    unfolding check_live revoke_refresh_family_on_reuse
    check-Lasts d id secret moment session w =
        elim (Bool-cases (leb session.absolute_expires_at moment)) [
          | inl e ↦ rw e (inr refl)
          | inr e ↦ elim (Bool-cases (leb session.idle_expires_at moment)) [
            | inl f ↦ rw (e, f) (inr refl)
            | inr f ↦ elim (Bool-cases (compare_refresh_secret py session.stored_hash secret)) [
              | inl g ↦ rw (e, f, g) (inr refl)
              | inr g ↦ rw (e, f, g) (revoke-Lasts d id session.user_id_raw moment w)
            ]
          ]
        ]

    live-Lasts :
        (d : RotateDraws) (id : String) (moment : ℕ) (session : StoredSession) (w : World R D)
        → Lasts w (rotate_live py encode R D settings d id moment session w).1
    unfolding rotate_live
    live-Lasts d id moment session w =
        Lasts-continue _ _ w _ (write-Lasts d (key_of id) moment session w)
          (λ _. mint-Lasts d moment id session)

    session-Lasts :
        (d : RotateDraws) (id secret : String) (moment : ℕ) (session : StoredSession)
        (w : World R D)
        → Lasts w (rotate_session py encode R D settings d id secret moment session w).1
    unfolding rotate_session
    session-Lasts d id secret moment session w =
        Lasts-continue _ _ w _ (check-Lasts d id secret moment session w)
          (λ _. live-Lasts d id moment session)

    pub rotate-Lasts :
        (d : RotateDraws) (token : String) (moment : ℕ) (w : World R D)
        → Lasts w (rotate_refresh_token py encode R D settings d token moment w).1
    unfolding rotate_refresh_token
    rotate-Lasts d token moment w = elim (Option-cases (parse_refresh_token token)) [
      | inl e ↦ rw e (inr refl)
      | inr ((id, secret), e) ↦ rw e (
          Lasts-continue (load_session py encode R D (key_of id) w).0 _ w _
            (rw (load-same (key_of id) w) (inr refl)) (session-Lasts d id secret moment))
    ]
