-- ===== src/Main/Tests.antt =====
-- The theorems on the probes and the routes, with drivers that count their calls.
use lite_mcp.Base.{
  ℕ, suc, String, Bool, true, Option, none, some, [], ◌∷◌, ◌≡◌, ◌↔◌, refl, lookup, ◌+◌, eqb,
  if◌then◌else◌,
}
use lite_mcp.Base.Length.{len}
use lite_mcp.Base.Exec.{Result, ok, err}
use lite_mcp.Platform.Python.{Exception, exception}
use lite_mcp.Platform.Asgi.{start, body, Responses}
use lite_mcp.Platform.Memory.Sample.{sample_settings}
use lite_mcp.Correlation.{request_id, is_valid_request_id, all_hex}
use lite_mcp.Security.Csrf.{
  Request, require_cookie_write_csrf, effective_origin, origin_from_referer,
}
use lite_mcp.Security.Redaction.{TextMethods}
use lite_mcp.Platform.Resources.{State, engine}
use lite_mcp.Main.{Drivers, readyz, probe_database}
use lite_mcp.Main.Ready.{DatabaseAnswers, RedisAnswers, readyz_decides}
use lite_mcp.Main.Writes.{Passes, auth_write_iff}
use lite_mcp.Main.Thread.Reported.{true-IsReported}
use lite_mcp.Main.Thread.{
  Step, Reach, returned, initial, start, report, join, leave, here, next, ended, join_timeout,
}
use lite_mcp.Main.Routes.{
  unauthenticated_auth_stub, JsonResponse, post_login, get_readyz, Draws, handle, serve, fresh,
  IsResponse, answered_once, errors_look_alike, auth_write,
}

-- Drivers on a count of calls: the engine answers, and the client of Redis does not close.
abbrev drivers : Drivers ℕ
drivers = record {
  get_settings =
      λ n. if eqb n 99 then (err (exception "no settings"), n) else (ok sample_settings, suc n);
  create_async_engine = λ url timeout n. (ok 7, suc n);
  select_one = λ n timeout w. (ok tt, suc w);
  dispose = λ n w. (ok tt, suc w);
  from_url = λ url connect_timeout socket_timeout w. (ok 9, suc w);
  ping = λ n w. (ok true, suc w);
  close = λ n w. (err (exception "closed"), suc w);
  lower = λ s. s;
}

abbrev idle : State ℕ
idle = record { world = 0; held = engine 3 ∷ [] }

readyz_decides_example :
    (((readyz drivers idle).0.status_code ≡ 200) ↔ (
      DatabaseAnswers drivers idle.world
      × RedisAnswers drivers (probe_database drivers idle).1.world))
    × ((readyz drivers idle).1.held ≡ engine 3 ∷ [])
readyz_decides_example = readyz_decides drivers idle

finished :
    Reach
      (ok true)
      (initial 5)
      (record { outcome = true ∷ []; thread = ended; caller = returned true; clock = 5 })
finished =
    next
      (next (next (next here (Step.start refl)) (report refl)) (join (5 + join_timeout) refl refl))
      (leave refl)

true-IsReported_example : (◌≡◌ {A = Result Exception Bool} (ok true) (ok true)) × (ended ≡ ended)
true-IsReported_example = true-IsReported (ok true) 5 _ finished refl

abbrev responses : Responses JsonResponse
responses = record {
  set_header = λ name value r. record r { headers = ("x-request-id", value) ∷ r.headers };
  messages = λ r. start r.status_code r.headers ∷ body "{}" ∷ [];
}

abbrev methods : TextMethods
methods = record {
  replace = λ old new value. value;
  lower = λ s. s;
  sub = λ p replacement value. value;
}

-- A referer that `urlsplit` refuses.
abbrev malformed : Request
malformed = record {
  origin = none;
  referer = some "http://[";
  sec_fetch_site = none;
  x_litemcp_request = none;
}

abbrev split_nothing : String → Option (String × String)
split_nothing referer = none

abbrev draws : Draws
draws = record { inbound = none; hex = "0123456789abcdef0123456789abcdef"; token = "t" }

digits : all_hex draws.hex ≡ true
unfolding all_hex
digits = refl

thirty_two : len draws.hex ≡ 32
unfolding len
thirty_two = refl

one-IsResponse :
    (id : String) (r : JsonResponse)
    → IsResponse drivers split_nothing methods [] responses id
        (responses.messages (responses.set_header "X-Request-Id" id r))
unfolding lookup
one-IsResponse id r = (_, _, _, refl, refl, (tt, tt))

answered_once_example :
    ((serve drivers split_nothing methods [] responses get_readyz malformed draws
        (fresh drivers split_nothing methods [] responses idle)).0
      ≡ ok tt)
    × IsResponse drivers split_nothing methods [] responses
        (request_id draws.inbound draws.hex)
        (serve drivers split_nothing methods [] responses get_readyz malformed draws
          (fresh drivers split_nothing methods [] responses idle)).1.sent
    × (is_valid_request_id (request_id draws.inbound draws.hex) ≡ true)
answered_once_example =
    answered_once drivers split_nothing methods [] responses one-IsResponse get_readyz malformed
      draws idle digits thirty_two

abbrev late : State ℕ
late = record { world = 99; held = [] }

raises :
    handle drivers split_nothing post_login malformed idle
    ≡ (err (exception "ValueError"), record idle { world = 1 })
unfolding handle auth_write require_cookie_write_csrf effective_origin origin_from_referer
raises = refl

raises_late :
    handle drivers split_nothing post_login malformed late ≡ (err (exception "no settings"), late)
unfolding handle auth_write
raises_late = refl

errors_look_alike_example :
    (serve drivers split_nothing methods [] responses post_login malformed draws
      (fresh drivers split_nothing methods [] responses idle)).1.sent
    ≡ (serve drivers split_nothing methods [] responses post_login malformed draws
        (fresh drivers split_nothing methods [] responses late)).1.sent
errors_look_alike_example =
    errors_look_alike drivers split_nothing methods [] responses post_login post_login malformed
      malformed draws idle late (record idle { world = 1 }) late (exception "ValueError")
      (exception "no settings") digits thirty_two raises raises_late

abbrev page : Request
page = record {
  origin = none;
  referer = some "https://a/login";
  sec_fetch_site = none;
  x_litemcp_request = some "1";
}

auth_write_iff_example :
    ((auth_write drivers (λ s. some ("https", "a")) page idle).0 ≡ ok unauthenticated_auth_stub)
    ↔ Passes drivers (λ s. some ("https", "a")) page idle.world
auth_write_iff_example = auth_write_iff drivers (λ s. some ("https", "a")) page idle
