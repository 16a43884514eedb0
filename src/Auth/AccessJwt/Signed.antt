-- ===== src/Auth/AccessJwt/Signed.antt =====
-- What the checks of a token establish when they pass.
use lite_mcp.Base.{
  ℕ, String, Bool, true, false, Option, none, some, List, [], ◌∷◌, ◌≡◌, ◌≢◌, refl, ap, sym, ◌∙◌,
  arith, eq_iff, not, ◌==◌, is_text, lookup,
}
use lite_mcp.Base.Integer
use lite_mcp.Base.Integer.{ℤ, pos}
use lite_mcp.Base.Checks.{>>=-eq-ok, require-eq-ok, or_raise-eq-ok, or_raise-last, require-last}
use lite_mcp.Base.Exec.{ok}
use lite_mcp.Platform.Time.{as_utc}
use lite_mcp.Platform.Python.{Stdlib}
use lite_mcp.Platform.Jwt.{Json, Jwt}
use lite_mcp.Config.{Settings}
use lite_mcp.Db.User.{User}
use lite_mcp.Auth.AccessJwt.Wire.{IsToken, IsKey, of_parts, of_keyring}
use lite_mcp.Auth.AccessJwt.{
  invalid_token, user_not_active, token_stale, database_unavailable, value_error, AccessAuthContext,
  as_text, as_number, is_json_text, verification_keyring, parse_header_and_payload,
  configured_algorithm, require_str_claim, parse_sub, options, verify_signature, verify_claims,
}

text_is : (v : Option String) (s : String) → is_text v s ≡ true → v ≡ some s
text_is none s h = cc
text_is (some v) s h = ap some ((eq_iff v s).0 h)

json_text : (v : Option Json) (s : String) → is_json_text v s ≡ true → as_text v ≡ some s
json_text v s h = text_is (as_text v) s h

double_negation : (b : Bool) → not (not b) ≡ true → b ≡ true
double_negation true h = refl
double_negation false h = h

module _ (py : Stdlib) (j : Jwt) (settings : Settings) (load_user : ℕ → Option (Option User)) where
  open py use {uuid_parse}
  open j use {decode, fromtimestamp, lower}

  -- The token: its header names the configured algorithm, an access token and the id of the current
  -- or of a previous key, and the token decodes with the secret of that key under the configured
  -- issuer, audience and leeway.
  pub record IsSigned (token : String) (now : ℕ) (claims : List (String × Json)) : Type 0 where
    pub header : List (String × Json)
    pub payload : List (String × Json)
    pub parts : IsToken py j settings load_user token header payload
    pub algorithm : settings.admin_jwt_algorithm ≢ ""
    pub not_none : lower settings.admin_jwt_algorithm ≢ "none"
    pub alg : as_text (lookup "alg" header) ≡ some settings.admin_jwt_algorithm
    pub typ : as_text (lookup "typ" header) ≡ some "at+jwt"
    pub kid : String
    pub names_key : as_text (lookup "kid" header) ≡ some kid
    pub kid_given : kid ≢ ""
    pub secret : String
    pub known_key : IsKey settings kid secret
    pub decodes :
        decode token secret (record {
          algorithms = settings.admin_jwt_algorithm ∷ [];
          issuer = settings.admin_jwt_issuer;
          audience = settings.admin_jwt_audience;
          leeway = settings.admin_jwt_clock_skew_seconds;
          required = "exp" ∷ "nbf" ∷ "iat" ∷ "iss" ∷ "aud" ∷ "sub" ∷ [];
          now = now;
        })
        ≡ some claims

  -- The claims and the account: an access token, of an active account, issued at or after its last
  -- change of the password.
  pub record IsCurrent (claims : List (String × Json)) (context : AccessAuthContext) : Type 0 where
    pub user : User
    pub sub : String
    pub user_id : ℕ
    pub sid : String
    pub jti : String
    pub iat : Json
    pub issued_at : ℤ
    pub token_type : as_text (lookup "token_type" claims) ≡ some "access"
    pub subject : as_text (lookup "sub" claims) ≡ some sub
    pub parses : uuid_parse sub ≡ some user_id
    pub has_sid : as_text (lookup "sid" claims) ≡ some sid
    pub sid_given : sid ≢ ""
    pub has_jti : as_text (lookup "jti" claims) ≡ some jti
    pub jti_given : jti ≢ ""
    pub has_iat : as_number (lookup "iat" claims) ≡ some iat
    pub found : load_user user_id ≡ some (some user)
    pub active : user.status ≡ "active"
    pub instant : fromtimestamp iat ≡ some issued_at
    pub fresh : Integer.leb (pos (as_utc user.password_changed_at)) issued_at ≡ true
    pub result : context ≡ record {
      user_id = user.id;
      username = user.username;
      role = user.role;
      sid = sid;
      jti = jti;
    }

  claim-eq-ok :
      (claims : List (String × Json)) (name v : String)
      → require_str_claim py j settings load_user claims name ≡ ok v
      → (as_text (lookup name claims) ≡ some v) × (v ≢ "")
  unfolding require_str_claim
  claim-eq-ok claims name v h =
      let (s, e, k) = or_raise-eq-ok (as_text (lookup name claims)) invalid_token _ v h in
      let (ne, same) = require-last (not (s == "")) invalid_token s v k in
      (e ∙ ap some same, λ q. ground (arith, eq_iff s ""))

  algorithm-eq-ok :
      (a : String)
      → configured_algorithm py j settings load_user ≡ ok a
      → (settings.admin_jwt_algorithm ≢ "")
        × (lower settings.admin_jwt_algorithm ≢ "none")
        × (settings.admin_jwt_algorithm ≡ a)
  unfolding configured_algorithm
  algorithm-eq-ok a h = ground (
    arith,
    eq_iff settings.admin_jwt_algorithm "",
    eq_iff (lower settings.admin_jwt_algorithm) "none",
  )

  sub-eq-ok :
      (v : Option Json) (i : ℕ)
      → parse_sub py j settings load_user v ≡ ok i
      → (s : String) × (as_text v ≡ some s) × (uuid_parse s ≡ some i)
  unfolding parse_sub
  sub-eq-ok v i h =
      let (s, e, k) = or_raise-eq-ok (as_text v) invalid_token _ i h in
      (s, e, or_raise-last (uuid_parse s) invalid_token i k)

  pub signed :
      (token : String) (now : ℕ) (claims : List (String × Json))
      → verify_signature py j settings load_user token now ≡ ok claims
      → IsSigned token now claims
  unfolding verify_signature
  signed token now claims h =
      let ((header, payload), parts, h₁) =
        >>=-eq-ok (parse_header_and_payload py j settings load_user token) _ claims h in
      let (a, configured, h₂) =
        >>=-eq-ok (configured_algorithm py j settings load_user) _ claims h₁ in
      let (given, not_none, same) = algorithm-eq-ok a configured in
      let (alg, h₃) =
        require-eq-ok (is_json_text (lookup "alg" header) a) invalid_token _ claims h₂ in
      let (typ, h₄) =
        require-eq-ok (is_json_text (lookup "typ" header) "at+jwt") invalid_token _ claims h₃ in
      let (kid, named, h₅) =
        >>=-eq-ok (require_str_claim py j settings load_user header "kid") _ claims h₄ in
      let (names_key, kid_given) = claim-eq-ok header "kid" kid named in
      let (secret, known, h₆) =
        or_raise-eq-ok (lookup kid (verification_keyring py j settings load_user)) invalid_token _
          claims h₅ in
      record {
        header = header;
        payload = payload;
        parts = of_parts py j settings load_user token header payload parts;
        algorithm = given;
        not_none = not_none;
        alg = json_text (lookup "alg" header) a alg ∙ ap some (sym same);
        typ = json_text (lookup "typ" header) "at+jwt" typ;
        kid = kid;
        names_key = names_key;
        kid_given = kid_given;
        secret = secret;
        known_key = of_keyring py j settings load_user kid secret known;
        decodes =
            ap (λ a. decode token secret (options py j settings load_user a now)) same
            ∙ or_raise-last (decode token secret (options py j settings load_user a now))
                invalid_token claims h₆;
      }

  pub current :
      (claims : List (String × Json)) (context : AccessAuthContext)
      → verify_claims py j settings load_user claims ≡ ok context
      → IsCurrent claims context
  unfolding verify_claims
  current claims context h =
      let (t, h₁) =
        require-eq-ok (is_json_text (lookup "token_type" claims) "access") invalid_token _ context
          h in
      let (user_id, parsed, h₂) =
        >>=-eq-ok (parse_sub py j settings load_user (lookup "sub" claims)) _ context h₁ in
      let (sub, subject, parses) = sub-eq-ok (lookup "sub" claims) user_id parsed in
      let (sid, s, h₃) =
        >>=-eq-ok (require_str_claim py j settings load_user claims "sid") _ context h₂ in
      let (has_sid, sid_given) = claim-eq-ok claims "sid" sid s in
      let (jti, t', h₄) =
        >>=-eq-ok (require_str_claim py j settings load_user claims "jti") _ context h₃ in
      let (has_jti, jti_given) = claim-eq-ok claims "jti" jti t' in
      let (iat, has_iat, h₅) =
        or_raise-eq-ok (as_number (lookup "iat" claims)) invalid_token _ context h₄ in
      let (found, loaded, h₆) =
        or_raise-eq-ok (load_user user_id) database_unavailable _ context h₅ in
      let (user, some_user, h₇) = or_raise-eq-ok found user_not_active _ context h₆ in
      let (active, h₈) = require-eq-ok (user.status == "active") user_not_active _ context h₇ in
      let (issued_at, instant, h₉) = or_raise-eq-ok (fromtimestamp iat) value_error _ context h₈ in
      let (fresh, result) =
        require-last (not (not (Integer.leb (pos (as_utc user.password_changed_at)) issued_at)))
          token_stale _ context h₉ in
      record {
        user = user;
        sub = sub;
        user_id = user_id;
        sid = sid;
        jti = jti;
        iat = iat;
        issued_at = issued_at;
        token_type = json_text (lookup "token_type" claims) "access" t;
        subject = subject;
        parses = parses;
        has_sid = has_sid;
        sid_given = sid_given;
        has_jti = has_jti;
        jti_given = jti_given;
        has_iat = has_iat;
        found = loaded ∙ ap some some_user;
        active = (eq_iff user.status "active").0 active;
        instant = instant;
        fresh =
            double_negation (Integer.leb (pos (as_utc user.password_changed_at)) issued_at) fresh;
        result = sym result;
      }
