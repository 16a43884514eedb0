-- ===== src/Auth/AccessJwt/Minted.antt =====
-- The tokens that a login or a refresh gives out.
use lite_mcp.Base.{
  ℕ, ◌+◌, ◌/◌, ◌<◌, ◌≤◌, String, Option, some, List, [], ◌∷◌, ◌≡◌, ◌≢◌, refl, sym, ◌∙◌, leb-false,
  arith, eq_iff, str_ne, leb-true, lookup, ap, All, IsIn, inl, inr,
}
use lite_mcp.Base.Length.{byte_length}
use lite_mcp.Base.Integer.{pos}
use lite_mcp.Base.Exec.{err}
use lite_mcp.Platform.Time.{as_utc, seconds}
use lite_mcp.Platform.Python.{Stdlib, StdlibLaws}
use lite_mcp.Platform.Jwt.{Json, text, int, Jwt, DecodeOptions}
use lite_mcp.Config.{Settings}
use lite_mcp.Db.User.{User}
use lite_mcp.Auth.Session.{Claims, Headers, Encode, build_access_token}
use lite_mcp.Auth.AccessJwt.{
  token_stale, options, verify_claims, require_str_claim, parse_sub, verify_access_jwt,
}
use lite_mcp.Auth.AccessJwt.Wire.{IsToken}
use lite_mcp.Auth.AccessJwt.Signed.{IsSigned}
use lite_mcp.Auth.AccessJwt.Accepts.{of_IsSigned}

-- The members that claims and headers have as JSON.
abbrev pub claim_members : Claims → List (String × Json)
claim_members c =
    ("iss", text c.iss)
    ∷ ("aud", text c.aud)
    ∷ ("sub", text c.sub)
    ∷ ("sid", text c.sid)
    ∷ ("jti", text c.jti)
    ∷ ("iat", int (pos c.iat))
    ∷ ("nbf", int (pos c.nbf))
    ∷ ("exp", int (pos c.exp))
    ∷ ("token_type", text c.token_type)
    ∷ []

abbrev pub claim_names : List String
claim_names = "iss" ∷ "aud" ∷ "sub" ∷ "sid" ∷ "jti" ∷ "iat" ∷ "nbf" ∷ "exp" ∷ "token_type" ∷ []

abbrev pub header_members : Headers → List (String × Json)
header_members h = ("alg", text h.alg) ∷ ("typ", text h.typ) ∷ ("kid", text h.kid) ∷ []

module _ (py : Stdlib) (pyl : StdlibLaws py) (j : Jwt) (encode : Encode) (settings : Settings)
    (load_user : ℕ → Option (Option User)) where
  open j use {decode, fromtimestamp, lower}

  -- The claims of a token that is issued at a time.
  abbrev pub claims_of : User → String → String → ℕ → Claims
  claims_of user session_id jti issued = record {
    iss = settings.admin_jwt_issuer;
    aud = settings.admin_jwt_audience;
    sub = py.uuid_str user.id;
    sid = session_id;
    jti = jti;
    iat = issued / 1000000;
    nbf = issued / 1000000;
    exp = issued / 1000000 + settings.admin_access_ttl_seconds;
    token_type = "access";
  }

  abbrev pub headers : Headers
  headers = record { alg = "HS256"; typ = "at+jwt"; kid = settings.admin_jwt_kid }

  abbrev pub token_of : User → String → String → ℕ → String
  token_of user session_id jti issued =
      (build_access_token py encode user session_id settings jti issued).0

  -- What PyJWT documents of a token that it encoded: its segments are the header and the claims as
  -- JSON, and it decodes with the same key under any options that allow its algorithm, name its issuer
  -- and its audience and require claims that it has, from `nbf` and `iat` on until `exp`, with the
  -- leeway of the options.
  pub record ReadsBack (claims : Claims) : Type 0 where
    pub parts :
        IsToken py j settings load_user
          (encode claims settings.admin_jwt_secret "HS256" headers)
          (header_members headers)
          (claim_members claims)
    pub decodes :
        (o : DecodeOptions)
        → IsIn "HS256" o.algorithms
        → o.issuer ≡ claims.iss
        → o.audience ≡ claims.aud
        → All (λ name. IsIn name claim_names) o.required
        → seconds claims.nbf ≤ o.now + seconds o.leeway
        → seconds claims.iat ≤ o.now + seconds o.leeway
        → o.now < seconds (claims.exp + o.leeway)
        → decode
            (encode claims settings.admin_jwt_secret "HS256" headers)
            settings.admin_jwt_secret
            o
          ≡ some (claim_members claims)
    pub instant : fromtimestamp (int (pos claims.iat)) ≡ some (pos (seconds claims.iat))

  -- A deployment that signs with HS256, under a key id.
  pub record SignsHs256 : Type 0 where
    pub algorithm : settings.admin_jwt_algorithm ≡ "HS256"
    pub lowered : lower "HS256" ≢ "none"
    pub kid : settings.admin_jwt_kid ≢ ""

  -- A moment at which the token is valid, and a token that is not too long.
  pub record IsInTime (token : String) (issued now : ℕ) : Type 0 where
    pub given : token ≢ ""
    pub short : byte_length token ≤ 8192
    pub after : issued ≤ now
    pub before : now < seconds (issued / 1000000 + settings.admin_access_ttl_seconds)

  module _ (user : User) (session_id jti : String) (issued now : ℕ) where
    abbrev token : String
    token = token_of user session_id jti issued

    required :
        All (λ name. IsIn name claim_names) ("exp" ∷ "nbf" ∷ "iat" ∷ "iss" ∷ "aud" ∷ "sub" ∷ [])
    required = (
      inr (inr (inr (inr (inr (inr (inr (inl refl))))))),
      (
        inr (inr (inr (inr (inr (inr (inl refl)))))),
        (
          inr (inr (inr (inr (inr (inl refl))))),
          (inl refl, (inr (inl refl), (inr (inr (inl refl)), tt))),
        ),
      ),
    )

    signed :
        SignsHs256
        → ReadsBack (claims_of user session_id jti issued)
        → IsInTime token issued now
        → IsSigned py j settings load_user token now
            (claim_members (claims_of user session_id jti issued))
    unfolding lookup build_access_token
    signed hs r t = record {
      header = header_members headers;
      payload = claim_members (claims_of user session_id jti issued);
      parts = r.parts;
      algorithm = λ e. ground (arith, hs.algorithm, eq_iff "HS256" "");
      not_none = λ e. hs.lowered (sym (ap lower hs.algorithm) ∙ e);
      alg = ap some (sym hs.algorithm);
      typ = refl;
      kid = settings.admin_jwt_kid;
      names_key = refl;
      kid_given = hs.kid;
      secret = settings.admin_jwt_secret;
      known_key = inl (refl, refl);
      decodes =
          ap (λ a. decode token settings.admin_jwt_secret (options py j settings load_user a now))
            hs.algorithm
          ∙ r.decodes (options py j settings load_user "HS256" now) (inl refl) refl refl required
              (omega (arith, t.after)) (omega (arith, t.after)) (omega (arith, t.before));
    }

    verify-signed :
        SignsHs256
        → ReadsBack (claims_of user session_id jti issued)
        → IsInTime token issued now
        → verify_access_jwt py j settings load_user token now
          ≡ verify_claims py j settings load_user
              (claim_members (claims_of user session_id jti issued))
    unfolding verify_access_jwt
    verify-signed hs r t =
        rw
          (
            str_ne token "" t.given,
            leb-true (byte_length token) 8192 t.short,
            of_IsSigned py j settings load_user token now
                (claim_members (claims_of user session_id jti issued)) (signed hs r t),
          )
          refl

    -- A token that is given out after a change of the password, but in the same second, is refused as
    -- stale: `iat` is a whole number of seconds, and the change is compared in microseconds.
    same_second_stale :
        SignsHs256
        → ReadsBack (claims_of user session_id jti issued)
        → IsInTime token issued now
        → session_id ≢ ""
        → jti ≢ ""
        → load_user user.id ≡ some (some user)
        → user.status ≡ "active"
        → as_utc user.password_changed_at ≤ issued
        → seconds (issued / 1000000) < as_utc user.password_changed_at
        → verify_access_jwt py j settings load_user token now ≡ err token_stale
    unfolding lookup verify_claims require_str_claim parse_sub
    same_second_stale hs r t sid given found active later same =
        verify-signed hs r t
        ∙ rw
            (
              pyl.uuid_parse-str user.id,
              str_ne session_id "" sid,
              str_ne jti "" given,
              found,
              (eq_iff user.status "active").1 active,
              r.instant,
              leb-false (as_utc user.password_changed_at) (seconds (issued / 1000000)) same,
            )
            refl
