-- ===== src/Auth/Session/Keys.antt =====
-- The keys of Redis tell sessions and users apart.
use Prim.Native.Char.{code}
use text.Mathlib.TextLemmas.{
  append_cancel_left, cons-append, head-eq_of_cons-eq, tail-eq_of_cons-eq,
}
use lite_mcp.Base.{String, ◌≡◌, ◌≢◌, ◌∙◌, sym, ap, arith, ◌&◌}
use lite_mcp.Auth.Session.{admin_session_key, user_sessions_key}

heads-differ : (a b : String) → ":admin_session:" & a ≢ ":user_sessions:" & b
heads-differ a b e =
    let tails =
      tail-eq_of_cons-eq
        (sym (cons-append _ "admin_session:" a) ∙ e ∙ cons-append _ "user_sessions:" b) in
    let heads =
      head-eq_of_cons-eq
        (sym (cons-append _ "dmin_session:" a) ∙ tails ∙ cons-append _ "ser_sessions:" b) in
    absurd (omega (arith, ap code heads))

module _ (environment : String) where
  -- Two sessions of an environment never share a key.
  pub admin_session_key-injective :
      (a b : String) → admin_session_key environment a ≡ admin_session_key environment b → a ≡ b
  admin_session_key-injective a b h =
      append_cancel_left ":admin_session:" a b
        (append_cancel_left environment _ _ (append_cancel_left "litemcp:" _ _ h))

  -- Nor does a session share one with a user's set of sessions.
  pub session_key-ne-user_key :
      (a b : String) → admin_session_key environment a ≢ user_sessions_key environment b
  session_key-ne-user_key a b h =
      heads-differ a b (append_cancel_left environment _ _ (append_cancel_left "litemcp:" _ _ h))
