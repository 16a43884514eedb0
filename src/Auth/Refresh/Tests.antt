-- ===== src/Auth/Refresh/Tests.antt =====
-- The theorems on refresh at the session of a concrete login, in Redis and a user table in memory.
use lite_mcp.Base.{lookup, ℕ, String, [], ◌∷◌, ◌&◌, ◌≡◌, refl, arith, eq_iff}
use lite_mcp.Base.Exec.{err}
use lite_mcp.Platform.Memory.Store.{memory_redis, memory_redis-laws}
use lite_mcp.Platform.Memory.Values.{memory_stdlib, memory_stdlib-laws}
use lite_mcp.Platform.Memory.Rows.{memory_users}
use lite_mcp.Platform.Memory.Sample.{sample_settings, ann, no_keys}
use lite_mcp.Auth.Session.{Encode, LoginDraws, create_login_session}
use lite_mcp.Auth.Refresh.{RefreshError, World, RotateDraws, StoredSession, rotate_refresh_token}
use lite_mcp.Auth.Refresh.Holding.{IsPiece, parse-token}
use lite_mcp.Auth.Refresh.Rotation.{IsLive, IsCurrent, issued}
use lite_mcp.Auth.Refresh.Replay.{
  Outcome, Succeeds, Revokes, present, rotation-Succeeds, replay-Revokes,
}
use lite_mcp.Auth.Refresh.Race.{Call, both, minted, both_mint}
use lite_mcp.Auth.Refresh.Lifetime.{Presentation, rotate, after, lifetime_bound}
use lite_mcp.Auth.Refresh.Login.{stored, login, Holds-login, login_then_refresh}

abbrev pub encoded : Encode
encoded claims secret alg headers = "t"

abbrev pub draws : LoginDraws
draws = record { session_id = "a"; random_secret = "b"; jti = "j"; token_now = 0; now = 1 }

abbrev pub rotate_draws : RotateDraws
rotate_draws = record { new_secret = "c"; jti = "k"; event_id = 1; request_id = "r"; token_now = 5 }

abbrev pub empty : World memory_redis memory_users
empty = record { redis = no_keys; users = ann ∷ []; audit = [] }

pub IsPiece-a : IsPiece "a"
IsPiece-a = (ground (arith, eq_iff "a" ""), (omega arith, tt))

pub IsPiece-b : IsPiece "b"
IsPiece-b = (ground (arith, eq_iff "b" ""), (omega arith, tt))

IsPiece-c : IsPiece "c"
IsPiece-c = (ground (arith, eq_iff "c" ""), (omega arith, tt))

-- The session of the login, and the world after it.
abbrev pub session : StoredSession
session =
    stored memory_stdlib memory_stdlib-laws memory_redis memory_redis-laws encoded sample_settings
      draws ann

abbrev started : World memory_redis memory_users
started =
    login memory_stdlib memory_stdlib-laws memory_redis memory_redis-laws encoded sample_settings
      draws ann empty

-- The outcome of the call that presents the secret at a moment.
abbrev call :
    String
    → ℕ
    → World memory_redis memory_users
    → Outcome memory_stdlib memory_stdlib-laws memory_redis memory_redis-laws encoded memory_users
        sample_settings
call secret moment w =
    present memory_stdlib memory_stdlib-laws memory_redis memory_redis-laws encoded memory_users
      sample_settings "a" secret moment session rotate_draws w

abbrev Live : String → World memory_redis memory_users → Type 0
Live secret w =
    IsLive memory_stdlib memory_stdlib-laws memory_redis memory_redis-laws encoded memory_users
      sample_settings rotate_draws "a" secret 5 session w

IsLive-started : (secret : String) → IsPiece secret → Live secret started
IsLive-started secret piece = record {
  id_piece = IsPiece-a;
  secret_piece = piece;
  holds =
      Holds-login memory_stdlib memory_stdlib-laws memory_redis memory_redis-laws encoded
        sample_settings draws ann no_keys (omega arith);
  idle = omega arith;
  absolute = omega arith;
}

IsCurrent-ann :
    IsCurrent memory_stdlib memory_stdlib-laws memory_redis memory_redis-laws encoded memory_users
      (ann ∷ [])
      session
      ann
IsCurrent-ann = record {
  id = 7;
  parses = memory_stdlib-laws.uuid_parse-str 7;
  found = refl;
  active = refl;
  same_password = omega arith;
}

login_then_refresh_example :
    Succeeds memory_stdlib memory_stdlib-laws memory_redis memory_redis-laws encoded memory_users
      sample_settings "a" "b" 5 session rotate_draws started ann
      (rotate_refresh_token memory_stdlib encoded memory_redis memory_users sample_settings
        rotate_draws
        (create_login_session memory_stdlib encoded memory_redis sample_settings draws ann
          no_keys).0.refresh_token
        5
        started)
login_then_refresh_example =
    login_then_refresh memory_stdlib memory_stdlib-laws memory_redis memory_redis-laws encoded
      sample_settings memory_users draws ann rotate_draws 5 empty IsPiece-a IsPiece-b (omega arith)
      (omega arith) (omega arith) refl refl (omega arith)

rotation-Succeeds_example :
    Succeeds memory_stdlib memory_stdlib-laws memory_redis memory_redis-laws encoded memory_users
      sample_settings "a" "b" 5 session rotate_draws started ann
      (call "b" 5 started)
rotation-Succeeds_example =
    rotation-Succeeds memory_stdlib memory_stdlib-laws memory_redis memory_redis-laws encoded
      memory_users sample_settings "a" "b" 5 session rotate_draws started ann
      (IsLive-started "b" IsPiece-b) refl IsCurrent-ann

replay-Revokes_example :
    Revokes memory_stdlib memory_stdlib-laws memory_redis memory_redis-laws encoded memory_users
      sample_settings "a" "c" 5 session rotate_draws started
      (call "c" 5 started)
replay-Revokes_example =
    replay-Revokes memory_stdlib memory_stdlib-laws memory_redis memory_redis-laws encoded
      memory_users sample_settings "a" "c" 5 session rotate_draws started
      (IsLive-started "c" IsPiece-c) (ground (arith, eq_iff "b" "c"))

abbrev caller : Call memory_stdlib encoded memory_redis memory_users sample_settings
caller = record { draws = rotate_draws; session_id = "a"; secret = "b"; moment = 5 }

both_mint_example :
    ((both memory_stdlib memory_stdlib-laws memory_redis memory_redis-laws encoded memory_users
        sample_settings caller caller started).first
      ≡ minted (
          issued memory_stdlib memory_stdlib-laws memory_redis memory_redis-laws encoded
            memory_users sample_settings rotate_draws "a" ann))
    × ((both memory_stdlib memory_stdlib-laws memory_redis memory_redis-laws encoded memory_users
          sample_settings caller caller started).second
        ≡ minted (
            issued memory_stdlib memory_stdlib-laws memory_redis memory_redis-laws encoded
              memory_users sample_settings rotate_draws "a" ann))
both_mint_example =
    both_mint memory_stdlib memory_stdlib-laws memory_redis memory_redis-laws encoded memory_users
      sample_settings caller caller session ann started refl refl (IsLive-started "b" IsPiece-b)
      (IsLive-started "b" IsPiece-b) refl IsCurrent-ann

abbrev once :
    Presentation memory_stdlib memory_stdlib-laws memory_redis memory_redis-laws encoded
      memory_users sample_settings
once = record { draws = rotate_draws; token = "a" & "." & "b"; moment = 5 }

abbrev late :
    Presentation memory_stdlib memory_stdlib-laws memory_redis memory_redis-laws encoded
      memory_users sample_settings
late = record {
  draws = rotate_draws;
  token = "a" & "." & "c";
  moment = session.absolute_expires_at;
}

lifetime_bound_example :
    (e : RefreshError) × ((rotate memory_stdlib memory_stdlib-laws memory_redis memory_redis-laws
        encoded memory_users sample_settings late
        (after memory_stdlib memory_stdlib-laws memory_redis memory_redis-laws encoded memory_users
          sample_settings
          (once ∷ [])
          started)).0
      ≡ err e)
unfolding lookup create_login_session
lifetime_bound_example =
    lifetime_bound memory_stdlib memory_stdlib-laws memory_redis memory_redis-laws encoded
      memory_users sample_settings "a" "c" session.absolute_expires_at started (once ∷ []) late refl
      (parse-token "a" "c" IsPiece-a IsPiece-c) (omega arith)
