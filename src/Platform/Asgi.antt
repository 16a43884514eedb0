-- ===== src/Platform/Asgi.antt =====
-- ASGI: what an application sends, and the part of a request's scope that the middleware shares.
use lite_mcp.Base.{ℕ, String, Option, List}

pub data Message : Type 0 where
  start : ℕ → List (String × String) → Message
  body : String → Message

-- `state` is `scope["state"].get("request_id")` where it is a text. `inner` is what the handlers work
-- on.
pub record Scope (S : Type 0) : Type 0 where
  pub inner : S
  pub state : Option String
  pub sent : List Message

-- Responses of Starlette: `response.headers[name] = value`, and what a response sends.
pub record Responses (R : Type 0) : Type 0 where
  pub set_header : String → String → R → R
  pub messages : R → List Message
