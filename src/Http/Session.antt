-- ===== src/Http/Session.antt =====
-- The session of the page: `refreshAccessToken`, `ensureAuthSession` of src/shared/api/auth.ts and
-- `issueWsTicket` of src/shared/api/ws/ticket.ts, and what becomes of the tokens.
use durak_card_game.Prelude.{
  ℕ, String, ◌≡◌, ◌⊎◌, refl, Bool, true, false, not, Option, none, some, arith, truthy, get_or, inl,
  inr, if◌then◌else◌,
}
use durak_card_game.Http.{
  Call, Reply, unreachable, answer, Outcome, ok, Web, Host, Login, done, Parsed, nothing, object,
  is_ok, clear_tokens, payload_token, fetch, refresh_token, on_refreshed, refresh_with, for_room,
  bootstrap_telegram_auth, http_request,
}

not-true : (b : Bool) → not b ≡ true → b ≡ false
not-true true h = cc h
not-true false h = refl

module _ (net : ℕ → Call → Reply) where
  -- `response.accessToken` after the request, or the `catch`
  abbrev pub on_refresh_answer : Outcome → Web → Option String × Web
  on_refresh_answer (ok nothing) w = (none, clear_tokens w)
  on_refresh_answer (ok parsed) w = (
    payload_token parsed,
    record w { access_token = some (get_or (payload_token parsed) "undefined") },
  )
  on_refresh_answer _ w = (none, clear_tokens w)

  -- `refreshAccessToken`
  unfoldable pub refresh_access_token : ℕ → Host → Web → Option (Option String × Web)
  refresh_access_token fuel host w =
      if not (truthy w.refresh_token)
      then some (none, w)
      else elim (http_request net fuel host "/auth/refresh"
          (record {
            body = refresh_with (get_or w.refresh_token "");
            authorization = none;
            skip_auth = true;
            retry_auth = true;
          })
          w) [ none ↦ none | some (outcome, u) ↦ some (on_refresh_answer outcome u) ]

  -- `ensureAuthSession`
  unfoldable pub ensure_auth_session : ℕ → Host → Web → Option (Login × Web)
  ensure_auth_session fuel host w =
      if truthy w.access_token then some (done, w) else elim (refresh_access_token fuel host w) [
        | none ↦ none
        | some (token, u) ↦
            if truthy token
            then some (done, u)
            else bootstrap_telegram_auth net (http_request net fuel host) host u
      ]

  abbrev pub ticket_of : Parsed → Option String
  ticket_of (object p) = p.ticket
  ticket_of _ = none

  -- `issueWsTicket`, past its request; `none` is an error that is thrown
  abbrev pub on_ticket_answer : Outcome → Option String
  on_ticket_answer (ok parsed) = if truthy (ticket_of parsed) then ticket_of parsed else none
  on_ticket_answer _ = none

  unfoldable pub issue_ws_ticket : ℕ → Host → String → Web → Option (Option String × Web)
  issue_ws_ticket fuel host room_id w =
      elim (http_request net fuel host "/api/ws-ticket"
        (record {
          body = for_room room_id;
          authorization = none;
          skip_auth = false;
          retry_auth = true;
        })
        w) [ none ↦ none | some (outcome, u) ↦ some (on_ticket_answer outcome, u) ]

  -- The page has both tokens forgotten, or never had the one to refresh with.
  abbrev pub IsGone : Web → Web → Type 0
  IsGone w u =
      ((truthy w.refresh_token ≡ false) × (u ≡ w))
      ⊎ ((u.access_token ≡ none) × (u.refresh_token ≡ none))

  -- The page has the new token, and the one to refresh with as before.
  abbrev pub IsRenewed : Web → Web → String → Type 0
  IsRenewed w u token =
      (truthy (some token) ≡ true)
      × (u.access_token ≡ some token)
      × (u.refresh_token ≡ w.refresh_token)

  -- How a refresh ends.
  abbrev pub Settled : Web → Option String × Web → Type 0
  Settled w r =
      ((r.0 ≡ none) × IsGone w r.1)
      ⊎ ((token : String) × (r.0 ≡ some token) × IsRenewed w r.1 token)

  record Settles (w : Web) (r : Option String × Web) : Type 0 where
    settled : Settled w r

  if-Settles :
      (b : Bool) (w : Web) (r u : Option String × Web)
      → (b ≡ true → Settles w r)
      → (b ≡ false → Settles w u)
      → Settles w (if b then r else u)
  if-Settles true w r u h k = h refl
  if-Settles false w r u h k = k refl

  cleared : (w u : Web) → Settles w (none, clear_tokens u)
  cleared w u = record { settled = inl (refl, inr (refl, refl)) }

  renewed :
      (w u : Web) (o : Option String)
      → u.refresh_token ≡ w.refresh_token
      → not (truthy o) ≡ false
      → Settles w (o, record u { access_token = o })
  renewed w u none same h = cc h
  renewed w u (some token) same h = record {
    settled = inr (token, refl, (ground (arith, h), refl, same));
  }

  on_refreshed-Settles :
      (w : Web) (reply : Reply) (u : Web)
      → u.refresh_token ≡ w.refresh_token
      → Settles w (on_refreshed net reply u)
  on_refreshed-Settles w unreachable u same = cleared w u
  on_refreshed-Settles w (answer status parsed) u same =
      if-Settles (not (is_ok status)) w _ _ (λ _. cleared w u)
        λ _.
          if-Settles (not (truthy (payload_token parsed))) w _ _ (λ _. cleared w u)
            (renewed w u (payload_token parsed) same)

  refresh_token-Settles : (w : Web) → Settles w (refresh_token net w)
  unfolding refresh_token fetch
  refresh_token-Settles w =
      let r =
        fetch net
          (record {
            path = "/auth/refresh";
            authorization = none;
            body = refresh_with (get_or w.refresh_token "");
          })
          w in
      if-Settles (not (truthy w.refresh_token)) w (none, w) (on_refreshed net r.0 r.1)
        (λ e. record { settled = inl (refl, inl (not-true (truthy w.refresh_token) e, refl)) })
        (λ _. on_refreshed-Settles w r.0 r.1 refl)

  -- After refreshToken, whatever the network did: either there is no token and both are forgotten,
  -- or there never was one to refresh with and nothing was sent; or there is a token that is not
  -- empty, it is the one that is stored, and the token to refresh with is kept.
  pub refresh_token-Settled : (w : Web) → Settled w (refresh_token net w)
  refresh_token-Settled w = (refresh_token-Settles w).settled
