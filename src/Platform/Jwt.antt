-- ===== src/Platform/Jwt.antt =====
-- What the verification of access tokens calls: `base64`, `json` and PyJWT. JSON is a tree in which
-- an object keeps its members in the order of the text, duplicates included.
use lite_mcp.Base.{ℕ, String, Bool, Option, List}
use lite_mcp.Base.Integer.{ℤ}

mutual
  pub data Json : Type 0 where
    null : Json
    bool : Bool → Json
    int : ℤ → Json
    float : String → Json
    text : String → Json
    array : Items → Json
    object : Members → Json

  pub data Items : Type 0 where
    nil : Items
    item : Json → Items → Items

  pub data Members : Type 0 where
    end : Members
    field : String → Json → Members → Members

-- The arguments of `jwt.decode` behind the token and the secret, with the time of the call in
-- microseconds.
pub record DecodeOptions : Type 0 where
  pub algorithms : List String
  pub issuer : String
  pub audience : String
  pub leeway : ℕ
  pub required : List String
  pub now : ℕ

pub record Jwt : Type 0 where
  -- `base64.urlsafe_b64decode`, `none` where it raises
  pub urlsafe_b64decode : String → Option (List ℕ)
  -- `json.loads` of bytes, `none` where it raises
  pub json_loads : List ℕ → Option Json
  -- `jwt.decode(token, secret, …)`, the claims as a dictionary, `none` where it raises
  pub decode : String → String → DecodeOptions → Option (List (String × Json))
  -- `datetime.fromtimestamp(float(n), tz=UTC)` of an `int`, a `bool` or a `float`, in
  -- microseconds, `none` where it raises
  pub fromtimestamp : Json → Option ℤ
  -- `str.lower`
  pub lower : String → String
