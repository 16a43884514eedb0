-- ===== src/Auth/AccessJwt/Tests.antt =====
-- The theorems on access tokens at a concrete token, with a decoder that knows this one token.
use lite_mcp.Base.{
  Bool, ◌==◌, ◌&&◌, ltb, is_nil, if◌then◌else◌, ℕ, ◌+◌, ◌*◌, Option, ◌≤◌, String, some, none, List,
  [], ◌∷◌, ◌≡◌, ◌≢◌, ◌↔◌, refl,
}
use lite_mcp.Base.Length.{byte_length}
use lite_mcp.Base.Integer.{pos}
use lite_mcp.Base.Exec.{ok, err}
use lite_mcp.Platform.Time.{aware, seconds}
use lite_mcp.Platform.Jwt.{Json, Members, text, int, object, field, end, Jwt, DecodeOptions}
use lite_mcp.Platform.Memory.Values.{memory_stdlib}
use lite_mcp.Platform.Memory.Sample.{sample_settings, ann}
use lite_mcp.Db.User.{User}
use lite_mcp.Auth.Session.{Claims, Encode}
use lite_mcp.Auth.AccessJwt.{AccessAuthContext, database_unavailable, verify_access_jwt}
use lite_mcp.Platform.Python.{exception}
use lite_mcp.Platform.Resources.{State, client, engine}
use lite_mcp.Db.Session.{Sqlalchemy, get_session_factory}
use lite_mcp.Auth.AccessJwt.Loaded.{load_active_user, access, LooksUp, load_masks}
use lite_mcp.Auth.AccessJwt.Signed.{IsSigned, IsCurrent}
use lite_mcp.Auth.AccessJwt.Accepts.{verify_access_jwt_iff}
use lite_mcp.Auth.AccessJwt.Minted.{claim_members}

-- The account, with a password of the given time.
abbrev since : ℕ → User
since t = record ann { password_changed_at = aware t }

abbrev encoded : Encode
encoded claims secret alg headers = "h.p.s"

abbrev known_claims : ℕ → Claims
known_claims issued = record {
  iss = "i";
  aud = "litemcp-admin-api";
  sub = memory_stdlib.uuid_str 7;
  sid = "a";
  jti = "j";
  iat = issued;
  nbf = issued;
  exp = issued + 900;
  token_type = "access";
}

abbrev protected : Members
protected =
    field "alg" (text "HS256")
      (field "typ" (text "at+jwt") (field "kid" (text "admin-jwt-2026-01") end))

abbrev payload_members : ℕ → Members
payload_members issued = field "iss" (text "i") (
    field "aud" (text "litemcp-admin-api") (
      field "sub" (text (memory_stdlib.uuid_str 7)) (
        field "sid" (text "a") (
          field "jti" (text "j") (
            field "iat" (int (pos issued)) (
              field "nbf" (int (pos issued)) (
                field "exp" (int (pos (issued + 900)))
                  (field "token_type" (text "access") end))))))))

-- The checks of the decoder on the issuer, the audience and the time.
abbrev accepts : ℕ → DecodeOptions → Bool
accepts issued o =
    o.issuer == "i"
    && o.audience == "litemcp-admin-api"
    && ltb o.now (seconds (issued + 900 + o.leeway))

abbrev known : ℕ → Jwt
known issued = record {
  urlsafe_b64decode = λ s. some (if s == "h===" then 0 ∷ [] else []);
  json_loads = λ b. some (object (if is_nil b then payload_members issued else protected));
  decode = λ token secret o.
      if accepts issued o then some (claim_members (known_claims issued)) else none;
  fromtimestamp = λ n. elim n [ int (pos k) ↦ some (pos (k * 1000000)) | _ ↦ none ];
  lower = λ s. s;
}

abbrev accounts : User → ℕ → Option (Option User)
accounts u i = some (some u)

abbrev context : AccessAuthContext
context = record { user_id = 7; username = "Ann"; role = "admin"; sid = "a"; jti = "j" }

verify_access_jwt_iff_example :
    (verify_access_jwt memory_stdlib (known 5) sample_settings (accounts (since 0)) "h.p.s" 5800000
      ≡ ok context)
    ↔ (◌≢◌ {A = String} "h.p.s" ""
        × (byte_length "h.p.s" ≤ 8192)
        × ((claims : List (String × Json)) × IsSigned memory_stdlib
              (known 5)
              sample_settings
              (accounts (since 0))
              "h.p.s"
              5800000
              claims
            × IsCurrent memory_stdlib
                (known 5)
                sample_settings
                (accounts (since 0))
                claims
                context))
verify_access_jwt_iff_example =
    verify_access_jwt_iff memory_stdlib (known 5) sample_settings (accounts (since 0)) "h.p.s"
      5800000 context

-- A database whose sessions do not find their connection any more.
abbrev broken : Sqlalchemy ℕ
broken = record {
  get_settings = λ w. (ok sample_settings, w);
  create_async_engine = λ url w. (ok 4, w);
  async_session = λ n w. (ok 5, w);
  close = λ n w. (err (exception "closed"), w);
  dispose = λ n w. (ok tt, w);
}

abbrev before_load : State ℕ
before_load = record { world = 0; held = client 1 ∷ [] }

factory :
    get_session_factory broken before_load
    ≡ (ok 4, record { world = 0; held = engine 4 ∷ client 1 ∷ [] })
unfolding get_session_factory
factory = refl

load_masks_example :
    ((user : Option User)
      → ((load_active_user broken (λ m i w. (err (exception "lost"), w)) 7 before_load).0 ≡ ok user)
        ↔ LooksUp broken (λ m i w. (err (exception "lost"), w)) 7 4 0 user)
    × (((load_active_user broken (λ m i w. (err (exception "lost"), w)) 7 before_load).0
          ≡ err (access database_unavailable))
        ↔ ((user : Option User)
            → ¬ LooksUp broken (λ m i w. (err (exception "lost"), w)) 7 4 0 user))
    × ((load_active_user broken (λ m i w. (err (exception "lost"), w)) 7 before_load).1.held
        ≡ client 1 ∷ [])
load_masks_example =
    load_masks broken (λ m i w. (err (exception "lost"), w)) 7 4 before_load
      (record { world = 0; held = engine 4 ∷ client 1 ∷ [] }) factory (λ w. (w, refl))
