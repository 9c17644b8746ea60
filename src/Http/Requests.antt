-- ===== src/Http/Requests.antt =====
-- Which requests one call of `httpRequest` makes, and that it ends.
use mathlib.Core.List.{append_assoc}
use durak_card_game.Prelude.{
  List, [], ◌∷◌, ◌++◌, ℕ, suc, String, ◌≡◌, refl, ap, ◌∙◌, Bool, true, false, not, ◌==◌, ◌&&◌,
  Option, none, some, truthy, if◌then◌else◌,
}
use durak_card_game.Http.{
  Call, Reply, unreachable, answer, Options, HttpError, Outcome, ok, http_error, thrown, Parsed,
  Web, Host, is_ok, error_of, fetch, refresh_token, call_of, on_authorized, authorize,
  bootstrap_telegram_auth, bootstrap_auth_once, wants_retry, once, after_login, after_refresh,
  recover, settle, http_request, init_data, failed, no_init_data, is_done,
}
use durak_card_game.Http.Plain.{
  Skips, paths, Sends, Sends-none, Sends-one, Sends-same, Sends-append, IsPlain, outcome_of,
  and_false, settle-recovers, http_request-plain, refresh_token-Sends, on_authorized-calls,
}

-- The paths of the second try.
abbrev second_try : String → List String
second_try path = "/auth/refresh" ∷ "/auth/telegram" ∷ path ∷ []

module _ (net : ℕ → Call → Reply) (host : Host) where
  -- The computation has a result, and its requests are those of the plan, some left out.
  record Ends {ℓ} {A : Type ℓ} (plan : List String) (w : Web) (res : Option (A × Web))
      : Type ℓ where
    value : A
    web : Web
    returns : res ≡ some (value, web)
    sends : Sends plan w web

  if-Ends {ℓ} :
      {A : Type ℓ} (plan : List String) (w : Web) (b : Bool) (r u : Option (A × Web))
      → Ends plan w r
      → Ends plan w u
      → Ends plan w (if b then r else u)
  if-Ends plan w true r u h k = h
  if-Ends plan w false r u h k = k

  now-Ends {ℓ} : {A : Type ℓ} (plan : List String) (a : A) (w : Web) → Ends plan w (some (a, w))
  now-Ends plan a w = record {
    value = a;
    web = w;
    returns = refl;
    sends = Sends-none plan w w refl;
  }

  plain-Ends :
      (fuel : ℕ) (path : String) (o : Options) (w : Web)
      → IsPlain o
      → Ends (path ∷ []) w (http_request net (suc fuel) host path o w)
  unfolding fetch
  plain-Ends fuel path o w p =
      let call = call_of net path o w in
      record {
        value = outcome_of (fetch net call w).0;
        web = (fetch net call w).1;
        returns = http_request-plain net host fuel path o w p;
        sends = Sends-one call w _ refl;
      }

  authorize-Ends :
      (fuel : ℕ) (login_data : String) (dev : Bool) (w : Web)
      → Ends
          ("/auth/telegram" ∷ [])
          w
          (authorize net (http_request net (suc fuel) host) login_data dev w)
  authorize-Ends fuel login_data dev w =
      let r =
        plain-Ends fuel "/auth/telegram"
          (record {
            body = init_data login_data;
            authorization = none;
            skip_auth = true;
            retry_auth = true;
          })
          w (record { plain = refl }) in
      record {
        value = (on_authorized net dev r.value r.web).0;
        web = (on_authorized net dev r.value r.web).1;
        returns = rw (r.returns, authorize) refl;
        sends = Sends-same r.sends (on_authorized-calls net host dev r.value r.web);
      }

  bootstrap-Ends :
      (fuel : ℕ) (w : Web)
      → Ends
          ("/auth/telegram" ∷ [])
          w
          (bootstrap_telegram_auth net (http_request net (suc fuel) host) host w)
  unfolding bootstrap_telegram_auth
  bootstrap-Ends fuel w =
      if-Ends ("/auth/telegram" ∷ []) w host.force_dev_auth _ _
        (authorize-Ends fuel host.dev_init_data true w) (by_init_data host.init_data)
    where
      by_init_data :
          (found : Option String)
          → Ends ("/auth/telegram" ∷ []) w (elim found [
            | none ↦ some (failed thrown, w)
            | some login_data ↦
                if not (login_data == "")
                then authorize net (http_request net (suc fuel) host) login_data false w
                else if not host.is_local_dev_host
                then some (no_init_data, w)
                else authorize net (http_request net (suc fuel) host) host.dev_init_data true w
          ])
      by_init_data none = now-Ends ("/auth/telegram" ∷ []) (failed thrown) w
      by_init_data (some login_data) =
          if-Ends ("/auth/telegram" ∷ []) w (not (login_data == "")) _ _
            (authorize-Ends fuel login_data false w)
            (if-Ends ("/auth/telegram" ∷ []) w (not host.is_local_dev_host) _ _
              (now-Ends ("/auth/telegram" ∷ []) no_init_data w)
              (authorize-Ends fuel host.dev_init_data true w))

  login-Ends :
      (fuel : ℕ) (w : Web)
      → Ends
          ("/auth/telegram" ∷ [])
          w
          (bootstrap_auth_once net (http_request net (suc fuel) host) host w)
  unfolding bootstrap_auth_once
  login-Ends fuel w =
      let r = bootstrap-Ends fuel w in
      record {
        value = is_done net (http_request net (suc fuel) host) r.value && truthy r.web.access_token;
        web = r.web;
        returns = rw (r.returns, bootstrap_auth_once) refl;
        sends = r.sends;
      }

  module _ (fuel : ℕ) (path : String) (o : Options) (error : HttpError) where
    after_login-Ends :
        (done : Bool) (w : Web)
        → Ends
            (path ∷ [])
            w
            (after_login net (http_request net (suc fuel) host) host path o error done w)
    after_login-Ends true w =
        plain-Ends fuel path (once net o) w
          (record { plain = and_false net host (not o.skip_auth) })
    after_login-Ends false w = now-Ends (path ∷ []) (http_error error) w

    after_refresh-Ends :
        (token : Option String) (w : Web)
        → Ends
            ("/auth/telegram" ∷ path ∷ [])
            w
            (after_refresh net (http_request net (suc fuel) host) host path o error token w)
    after_refresh-Ends (some token) w =
        let r =
          plain-Ends fuel path (record (once net o) { authorization = some token }) w
            (record { plain = and_false net host (not o.skip_auth) }) in
        record {
          value = r.value;
          web = r.web;
          returns = r.returns;
          sends = Sends-append (Sends-none ("/auth/telegram" ∷ []) w w refl) r.sends;
        }
    after_refresh-Ends none w =
        let login = login-Ends fuel w in
        let r = after_login-Ends login.value login.web in
        record {
          value = r.value;
          web = r.web;
          returns = rw (login.returns, after_refresh) r.returns;
          sends = Sends-append login.sends r.sends;
        }

  settle-Ends :
      (fuel : ℕ) (path : String) (o : Options) (reply : Reply) (w : Web)
      → Ends (second_try path) w (settle net (http_request net (suc fuel) host) host path o reply w)
  settle-Ends fuel path o unreachable w = now-Ends (second_try path) thrown w
  settle-Ends fuel path o (answer status parsed) w =
      if-Ends (second_try path) w (is_ok status) _ _ (now-Ends (second_try path) (ok parsed) w) (
        if-Ends (second_try path) w (wants_retry net status o) _ _ recovered
          (now-Ends (second_try path) (http_error (error_of status parsed)) w))
    where
      recovered :
          Ends
            (second_try path)
            w
            (recover net (http_request net (suc fuel) host) host path o (error_of status parsed) w)
      recovered =
          let r =
            after_refresh-Ends fuel path o (error_of status parsed) (refresh_token net w).0
              (refresh_token net w).1 in
          record {
            value = r.value;
            web = r.web;
            returns = r.returns;
            sends = Sends-append (refresh_token-Sends net host w) r.sends;
          }

-- With fuel 2 or more, httpRequest ends on every network, whatever it answers: it returns a result.
-- It has sent the request, and after it at most the refresh of the token, the login and the request
-- to the same path once more, each of them at most once and in this order.
pub http_request-ends :
    (net : ℕ → Call → Reply) (host : Host) (fuel : ℕ) (path : String) (o : Options) (w : Web)
    → (outcome : Outcome) × (u : Web) × (more : List Call) × (http_request net
          (suc (suc fuel))
          host
          path
          o
          w
        ≡ some (outcome, u))
      × (u.calls ≡ w.calls ++ call_of net path o w ∷ more)
      × Skips (paths more) ("/auth/refresh" ∷ "/auth/telegram" ∷ path ∷ [])
unfolding http_request fetch
http_request-ends net host fuel path o w =
    let first = fetch net (call_of net path o w) w in
    let r = settle-Ends net host fuel path o first.0 first.1 in
    (
      r.value,
      r.web,
      r.sends.made,
      r.returns,
      r.sends.calls ∙ append_assoc w.calls (call_of net path o w ∷ []) r.sends.made,
      r.sends.planned,
    )

module _ (net : ℕ → Call → Reply) (host : Host) (path : String) (o : Options) (w : Web) where
  -- the page after the first request, and after the refresh
  abbrev asked : Web
  asked = (fetch net (call_of net path o w) w).1

  abbrev pub refreshed : Web
  refreshed = (refresh_token net asked).1

  -- Where the first answer is 401, the request is not a login and asks for a second try, and the
  -- refresh gives a new token: the request is sent once more with that very token, in place of any
  -- other, and what comes of it then is the result.
  pub http_request-refreshed :
      (fuel : ℕ) (token : String) (parsed : Parsed)
      → (fetch net (call_of net path o w) w).0 ≡ answer 401 parsed
      → o.skip_auth ≡ false
      → o.retry_auth ≡ true
      → (refresh_token net (fetch net (call_of net path o w) w).1).0 ≡ some token
      → (let call : Call = record { path = path; authorization = some token; body = o.body } in
          http_request net (suc (suc fuel)) host path o w
          ≡ some (outcome_of (fetch net call refreshed).0, (fetch net call refreshed).1))
  unfolding http_request
  http_request-refreshed fuel token parsed denied logged asks renewed =
      let again = http_request net (suc fuel) host in
      ap (λ reply. settle net again host path o reply asked) denied
      ∙ settle-recovers net host again path o parsed asked (rw (logged, asks) refl)
      ∙ ap (λ found. after_refresh net again host path o (error_of 401 parsed) found refreshed)
          renewed
      ∙ http_request-plain net host fuel path (record (once net o) { authorization = some token })
          refreshed (record { plain = and_false net host (not o.skip_auth) })
