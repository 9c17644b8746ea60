-- ===== src/Http.antt =====
-- Requests to the server and the session behind them: src/shared/api/http.ts, src/shared/api/auth.ts
-- and src/shared/api/ws/ticket.ts, with the mock API off. The network is an argument: what the n-th
-- `fetch` of the page gives. Of local storage there are the two tokens and the flag of the
-- development login. A request that calls itself takes fuel. Two requests at once, which would share
-- one login, are not modelled.
pub mod Plain
pub mod Requests
pub mod Session
use durak_card_game.Prelude.{
  ℕ, zero, suc, ◌+◌, ◌≤◌, ◌<◌, String, Bool, true, false, not, ◌==◌, ◌&&◌, ◌||◌, Option, none, some,
  List, [], ◌∷◌, ◌++◌, eqb, ltb, leb, length, truthy, same_text, get_or, or_else, if◌then◌else◌,
}

-- The fields of an answer, or of an error, that the code reads; each is there if it is a text.
pub record Payload : Type 0 where
  pub code : Option String
  pub message : Option String
  pub request_id : Option String
  pub channel_link : Option String
  pub access_token : Option String
  pub refresh_token : Option String
  pub ticket : Option String

-- what `tryParseJson` makes of a body: nothing, a text, or an object
pub data Parsed : Type 0 where
  nothing : Parsed
  raw : String → Parsed
  object : Payload → Parsed

-- what `fetch` gives: it throws, or a status comes with a body
pub data Reply : Type 0 where
  unreachable : Reply
  answer : ℕ → Parsed → Reply

pub data Body : Type 0 where
  empty : Body
  refresh_with : String → Body
  init_data : String → Body
  for_room : String → Body

-- a call of `fetch`; the method is not kept
pub record Call : Type 0 where
  pub path : String
  pub authorization : Option String
  pub body : Body

-- `RequestOptions`, the header `Authorization` as its token
pub record Options : Type 0 where
  pub body : Body
  pub authorization : Option String
  pub skip_auth : Bool
  pub retry_auth : Bool

pub record HttpError : Type 0 where
  pub message : Option String
  pub status : ℕ
  pub response_body : Option String
  pub code : Option String
  pub channel_link : Option String
  pub request_id : Option String

-- what `httpRequest` settles with
pub data Outcome : Type 0 where
  ok : Parsed → Outcome
  http_error : HttpError → Outcome
  thrown : Outcome

pub record Web : Type 0 where
  pub access_token : Option String
  pub refresh_token : Option String
  pub dev_auth : Bool
  pub calls : List Call

-- the setting, and what Telegram hands over; `none` is a wait that fails
pub record Host : Type 0 where
  pub force_dev_auth : Bool
  pub is_local_dev_host : Bool
  pub init_data : Option String
  pub dev_init_data : String

abbrev pub is_ok : ℕ → Bool
is_ok status = leb 200 status && ltb status 300

abbrev pub clear_tokens : Web → Web
clear_tokens w = record w { access_token = none; refresh_token = none }

-- `parseApiErrorEnvelope`
unfoldable pub parse_api_error_envelope : Parsed → Option Payload
parse_api_error_envelope nothing = none
parse_api_error_envelope (raw s) = none
parse_api_error_envelope (object p) =
    if not (truthy p.code) && not (truthy p.message) then none else some p

abbrev pub text_of_parsed : Parsed → Option String
text_of_parsed (raw s) = some s
text_of_parsed _ = none

-- The error of a status; `message` is `none` for the text that names the status.
unfoldable pub error_of : ℕ → Parsed → HttpError
unfolding parse_api_error_envelope
error_of status parsed = elim (parse_api_error_envelope parsed) [
  | none ↦ record {
    message = none;
    status = status;
    response_body = text_of_parsed parsed;
    code = none;
    channel_link = none;
    request_id = none;
  }
  | some e ↦ record {
    message = if truthy e.message then e.message else none;
    status = status;
    response_body = or_else e.message (text_of_parsed parsed);
    code = e.code;
    channel_link = e.channel_link;
    request_id = e.request_id;
  }
]

-- `getAuthHeader`
unfoldable pub get_auth_header : Bool → Web → Option String
get_auth_header skip_auth w =
    if skip_auth then none else if truthy w.access_token then w.access_token else none

abbrev pub payload_token : Parsed → Option String
payload_token (object p) = p.access_token
payload_token _ = none

-- what the promise of `bootstrapTelegramAuth` settles with
pub data Login : Type 0 where
  done : Login
  failed : Outcome → Login
  subscription_required : String → Login
  no_init_data : Login

module _ (net : ℕ → Call → Reply) where
  -- `fetch`
  unfoldable pub fetch : Call → Web → Reply × Web
  fetch call w = (net (length w.calls) call, record w { calls = w.calls ++ call ∷ [] })

  -- `refreshToken` of http.ts, past its request
  abbrev pub on_refreshed : Reply → Web → Option String × Web
  on_refreshed unreachable w = (none, clear_tokens w)
  on_refreshed (answer status parsed) w =
      if not (is_ok status)
      then (none, clear_tokens w)
      else if not (truthy (payload_token parsed))
      then (none, clear_tokens w)
      else (payload_token parsed, record w { access_token = payload_token parsed })

  -- `refreshToken` of http.ts
  unfoldable pub refresh_token : Web → Option String × Web
  unfolding fetch
  refresh_token w =
      if not (truthy w.refresh_token)
      then (none, w)
      else let (reply, u) =
          fetch
            (record {
              path = "/auth/refresh";
              authorization = none;
              body = refresh_with (get_or w.refresh_token "");
            })
            w in
        on_refreshed reply u

  abbrev pub call_of : String → Options → Web → Call
  call_of path o w = record {
    path = path;
    authorization = or_else o.authorization (get_auth_header o.skip_auth w);
    body = o.body;
  }

  -- `localStorage.setItem(key, value)` writes the text `undefined` for a value that is missing
  abbrev pub set_tokens : Option String → Option String → Web → Web
  set_tokens access refresh w = record w {
    access_token = some (get_or access "undefined");
    refresh_token = some (get_or refresh "undefined");
  }

  abbrev pub channel_of : HttpError → String
  channel_of e = get_or e.channel_link "https://t.me/+P_rbSS0y5N9jM2Qy"

  -- `authorizeWithSubscriptionCheck`, past its request
  abbrev pub on_authorized : Bool → Outcome → Web → Login × Web
  on_authorized dev (ok (object p)) w =
      (done, record (set_tokens p.access_token p.refresh_token w) { dev_auth = dev })
  on_authorized dev (ok (raw s)) w = (done, record (set_tokens none none w) { dev_auth = dev })
  on_authorized dev (ok nothing) w = (failed thrown, w)
  on_authorized dev (http_error e) w =
      if eqb e.status 403 && same_text e.code "subscription_required"
      then (subscription_required (channel_of e), w)
      else (failed (http_error e), w)
  on_authorized dev thrown w = (failed thrown, w)

  module _ (request : String → Options → Web → Option (Outcome × Web)) where
    abbrev pub authorize : String → Bool → Web → Option (Login × Web)
    authorize login_data dev w =
        elim (request "/auth/telegram"
          (record {
            body = init_data login_data;
            authorization = none;
            skip_auth = true;
            retry_auth = true;
          })
          w) [ none ↦ none | some (outcome, u) ↦ some (on_authorized dev outcome u) ]

    unfoldable pub bootstrap_telegram_auth : Host → Web → Option (Login × Web)
    bootstrap_telegram_auth host w =
        if host.force_dev_auth then authorize host.dev_init_data true w else elim host.init_data [
          | none ↦ some (failed thrown, w)
          | some login_data ↦
              if not (login_data == "")
              then authorize login_data false w
              else if not host.is_local_dev_host
              then some (no_init_data, w)
              else authorize host.dev_init_data true w
        ]

    abbrev pub is_done : Login → Bool
    is_done done = true
    is_done _ = false

    -- `bootstrapAuthOnce`
    unfoldable pub bootstrap_auth_once : Host → Web → Option (Bool × Web)
    unfolding bootstrap_telegram_auth
    bootstrap_auth_once host w = elim (bootstrap_telegram_auth host w) [
      | none ↦ none
      | some (login, u) ↦ some (is_done login && truthy u.access_token, u)
    ]

  abbrev pub wants_retry : ℕ → Options → Bool
  wants_retry status o = eqb status 401 && (not o.skip_auth && o.retry_auth)

  abbrev pub once : Options → Options
  once o = record o { retry_auth = false }

  module _ (again : String → Options → Web → Option (Outcome × Web)) (host : Host) (path : String)
      (o : Options) (error : HttpError) where
    -- the branch without a new token, after the login
    abbrev pub after_login : Bool → Web → Option (Outcome × Web)
    after_login true w = again path (once o) w
    after_login false w = some (http_error error, w)

    -- the branch of a 401, after the refresh
    abbrev pub after_refresh : Option String → Web → Option (Outcome × Web)
    after_refresh (some token) w = again path (record (once o) { authorization = some token }) w
    after_refresh none w = elim (bootstrap_auth_once again host w) [
      | none ↦ none
      | some login ↦ after_login login.0 login.1
    ]

    abbrev pub recover : Web → Option (Outcome × Web)
    recover w = after_refresh (refresh_token w).0 (refresh_token w).1

  abbrev pub settle :
      (String → Options → Web → Option (Outcome × Web))
      → Host
      → String
      → Options
      → Reply
      → Web
      → Option (Outcome × Web)
  settle again host path o unreachable w = some (thrown, w)
  settle again host path o (answer status parsed) w =
      if is_ok status
      then some (ok parsed, w)
      else if wants_retry status o
      then recover again host path o (error_of status parsed) w
      else some (http_error (error_of status parsed), w)

  -- `httpRequest`; `none` means that the fuel ran out
  unfoldable pub http_request : ℕ → Host → String → Options → Web → Option (Outcome × Web)
  unfolding fetch
  http_request zero host path o w = none
  http_request (suc fuel) host path o w =
      let r = fetch (call_of path o w) w in settle (http_request fuel host) host path o r.0 r.1
