-- ===== src/Auth/AccessJwt/Accepts.antt =====
-- Exactly which tokens are accepted.
use lite_mcp.Base.{
  str_ne, leb-true, eq_refl, ℕ, ◌≤◌, String, true, Option, some, List, ◌≡◌, ◌≢◌, ◌↔◌, refl, ap, sym,
  arith, eq_iff, leb, not, ◌==◌, lookup,
}
use lite_mcp.Base.Length.{byte_length}
use lite_mcp.Base.Checks.{>>=-eq-ok, require-eq-ok}
use lite_mcp.Base.Exec.{ok}
use lite_mcp.Platform.Python.{Stdlib}
use lite_mcp.Platform.Jwt.{Json, Jwt}
use lite_mcp.Config.{Settings}
use lite_mcp.Db.User.{User}
use lite_mcp.Auth.AccessJwt.{
  invalid_token, AccessAuthContext, as_text, is_json_text, configured_algorithm, require_str_claim,
  parse_sub, verify_signature, verify_claims, verify_access_jwt,
}
use lite_mcp.Auth.AccessJwt.Wire.{to_parts, to_keyring}
use lite_mcp.Auth.AccessJwt.Signed.{IsSigned, IsCurrent, signed, current}

module _ (py : Stdlib) (j : Jwt) (settings : Settings) (load_user : ℕ → Option (Option User)) where
  open py use {uuid_parse}
  open j use {decode, fromtimestamp, lower}

  to_json_text : (v : Option Json) (s : String) → as_text v ≡ some s → is_json_text v s ≡ true
  to_json_text v s h = rw h (eq_refl s)

  to_claim :
      (claims : List (String × Json)) (name v : String)
      → as_text (lookup name claims) ≡ some v
      → v ≢ ""
      → require_str_claim py j settings load_user claims name ≡ ok v
  unfolding require_str_claim
  to_claim claims name v h ne = rw (h, str_ne v "" ne) refl

  to_sub :
      (v : Option Json) (s : String) (i : ℕ)
      → as_text v ≡ some s
      → uuid_parse s ≡ some i
      → parse_sub py j settings load_user v ≡ ok i
  unfolding parse_sub
  to_sub v s i h p = rw (h, p) refl

  to_algorithm :
      settings.admin_jwt_algorithm ≢ ""
      → lower settings.admin_jwt_algorithm ≢ "none"
      → configured_algorithm py j settings load_user ≡ ok settings.admin_jwt_algorithm
  unfolding configured_algorithm
  to_algorithm given n =
      rw
        (
          str_ne settings.admin_jwt_algorithm "" given,
          str_ne (lower settings.admin_jwt_algorithm) "none" n,
        )
        refl

  pub of_IsSigned :
      (token : String) (now : ℕ) (claims : List (String × Json))
      → IsSigned py j settings load_user token now claims
      → verify_signature py j settings load_user token now ≡ ok claims
  unfolding verify_signature
  of_IsSigned token now claims s =
      rw
        (
          to_parts py j settings load_user token s.header s.payload s.parts,
          to_algorithm s.algorithm s.not_none,
          to_json_text (lookup "alg" s.header) settings.admin_jwt_algorithm s.alg,
          to_json_text (lookup "typ" s.header) "at+jwt" s.typ,
          to_claim s.header "kid" s.kid s.names_key s.kid_given,
          to_keyring py j settings load_user s.kid s.secret s.known_key,
          s.decodes,
        )
        refl

  pub of_IsCurrent :
      (claims : List (String × Json)) (context : AccessAuthContext)
      → IsCurrent py j settings load_user claims context
      → verify_claims py j settings load_user claims ≡ ok context
  unfolding verify_claims
  of_IsCurrent claims context c =
      rw
        (
          to_json_text (lookup "token_type" claims) "access" c.token_type,
          to_sub (lookup "sub" claims) c.sub c.user_id c.subject c.parses,
          to_claim claims "sid" c.sid c.has_sid c.sid_given,
          to_claim claims "jti" c.jti c.has_jti c.jti_given,
          c.has_iat,
          c.found,
          (eq_iff c.user.status "active").1 c.active,
          c.instant,
          c.fresh,
        )
        (ap ok (sym c.result))

  accepted :
      (token : String) (now : ℕ) (context : AccessAuthContext)
      → verify_access_jwt py j settings load_user token now ≡ ok context
      → (token ≢ "")
        × (byte_length token ≤ 8192)
        × ((claims : List (String × Json)) × IsSigned py j settings load_user token now claims
            × IsCurrent py j settings load_user claims context)
  unfolding verify_access_jwt
  accepted token now context h =
      let (given, h₁) = require-eq-ok (not (token == "")) invalid_token _ context h in
      let (short, h₂) = require-eq-ok (leb (byte_length token) 8192) invalid_token _ context h₁ in
      let (claims, s, h₃) =
        >>=-eq-ok (verify_signature py j settings load_user token now) _ context h₂ in
      (
        λ q. ground (arith, eq_iff token ""),
        ground arith,
        (
          claims,
          signed py j settings load_user token now claims s,
          current py j settings load_user claims context h₃,
        ),
      )

  -- A token is accepted exactly if it is not empty and at most 8192 bytes long, it is signed, and its
  -- claims are current; the context is that of the account and of the claims.
  pub verify_access_jwt_iff :
      (token : String) (now : ℕ) (context : AccessAuthContext)
      → (verify_access_jwt py j settings load_user token now ≡ ok context) ↔ (
          (token ≢ "")
          × (byte_length token ≤ 8192)
          × ((claims : List (String × Json)) × IsSigned py j settings load_user token now claims
              × IsCurrent py j settings load_user claims context))
  unfolding verify_access_jwt
  verify_access_jwt_iff token now context = (
    accepted token now context,
    λ (given, short, (claims, s, c)).
        rw
          (
            str_ne token "" given,
            leb-true (byte_length token) 8192 short,
            of_IsSigned token now claims s,
            of_IsCurrent claims context c,
          )
          refl,
  )
