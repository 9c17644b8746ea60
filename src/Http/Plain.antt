-- ===== src/Http/Plain.antt =====
-- Requests that ask for no second try, and which calls of `fetch` each part makes.
use mathlib.Core.Path.{subst}
use mathlib.Core.List.{append-nil, append_assoc, map-append}
use durak_card_game.Prelude.{
  List, ◌++◌, map, sym, ◌∙◌, ◌⊎◌, none, get_or, ℕ, suc, String, ◌≡◌, refl, ap, Bool, true, false,
  not, ◌&&◌, Option, some, [], ◌∷◌, arith, eqb, same_text, truthy, Bool-cases, inl, inr,
  if◌then◌else◌,
}
use durak_card_game.Http.{
  Call, Reply, unreachable, answer, Options, Outcome, ok, http_error, thrown, Parsed, Web, Host,
  is_ok, error_of, fetch, refresh_token, on_refreshed, call_of, on_authorized, recover, settle,
  http_request, object, raw, nothing, payload_token, refresh_with,
}

abbrev pub paths : List Call → List String
paths calls = map (λ c. c.path) calls

-- The texts are those of the plan, in order, with some left out.
abbrev pub Skips : List String → List String → Type 0
Skips [] plan = Unit
Skips (x ∷ xs) [] = ⊥
Skips (x ∷ xs) (p ∷ plan) = ((x ≡ p) × Skips xs plan) ⊎ Skips (x ∷ xs) plan

Skips-later : (p ys q : List String) → Skips ys q → Skips ys (p ++ q)
Skips-later [] ys q k = k
Skips-later (s ∷ p) [] q k = tt
Skips-later (s ∷ p) (y ∷ ys) q k = inr (Skips-later p (y ∷ ys) q k)

Skips-append : (xs ys p q : List String) → Skips xs p → Skips ys q → Skips (xs ++ ys) (p ++ q)
Skips-append [] ys p q h k = Skips-later p ys q k
Skips-append (x ∷ xs) ys [] q h k = absurd h
Skips-append (x ∷ xs) ys (s ∷ p) q (inl (e, h)) k = inl (e, Skips-append xs ys p q h k)
Skips-append (x ∷ xs) ys (s ∷ p) q (inr h) k = inr (Skips-append (x ∷ xs) ys p q h k)

-- The requests that are sent between the two states go to the paths of the plan, in order, with
-- some left out.
pub record Sends (plan : List String) (w u : Web) : Type 0 where
  pub made : List Call
  pub calls : u.calls ≡ w.calls ++ made
  pub planned : Skips (paths made) plan

pub Sends-none : (plan : List String) (w u : Web) → u.calls ≡ w.calls → Sends plan w u
Sends-none plan w u e = record { made = []; calls = e ∙ sym (append-nil w.calls); planned = tt }

pub Sends-one :
    (call : Call) (w u : Web) → u.calls ≡ w.calls ++ call ∷ [] → Sends (call.path ∷ []) w u
Sends-one call w u e = record { made = call ∷ []; calls = e; planned = inl (refl, tt) }

pub Sends-same :
    {plan : List String} {w u v : Web} → Sends plan w u → v.calls ≡ u.calls → Sends plan w v
Sends-same h e = record { made = h.made; calls = e ∙ h.calls; planned = h.planned }

pub Sends-append :
    {p q : List String} {w u v : Web} → Sends p w u → Sends q u v → Sends (p ++ q) w v
Sends-append {p} {q} {w} {u} {v} h k = record {
  made = h.made ++ k.made;
  calls = k.calls ∙ ap (λ calls. calls ++ k.made) h.calls ∙ append_assoc w.calls h.made k.made;
  planned =
      subst (λ xs. Skips xs (p ++ q)) (sym (map-append (λ c. c.path) h.made k.made))
        (Skips-append (paths h.made) (paths k.made) p q h.planned k.planned);
}

-- A request that asks for no second try.
pub record IsPlain (o : Options) : Type 0 where
  pub plain : (not o.skip_auth && o.retry_auth) ≡ false

-- What one answer settles a plain request with.
abbrev pub outcome_of : Reply → Outcome
outcome_of unreachable = thrown
outcome_of (answer status parsed) =
    if is_ok status then ok parsed else http_error (error_of status parsed)

module _ (net : ℕ → Call → Reply) (host : Host) where
  pub and_false : (b : Bool) → (b && false) ≡ false
  and_false true = refl
  and_false false = refl

  settle-plain :
      (again : String → Options → Web → Option (Outcome × Web)) (path : String) (o : Options)
      (reply : Reply) (w : Web)
      → IsPlain o
      → settle net again host path o reply w ≡ some (outcome_of reply, w)
  settle-plain again path o unreachable w p = refl
  settle-plain again path o (answer status parsed) w p = elim (Bool-cases (is_ok status)) [
    | inl e ↦ rw e refl
    | inr e ↦ rw (e, p.plain, and_false (eqb status 401)) refl
  ]

  pub settle-recovers :
      (again : String → Options → Web → Option (Outcome × Web)) (path : String) (o : Options)
      (parsed : Parsed) (w : Web)
      → (not o.skip_auth && o.retry_auth) ≡ true
      → settle net again host path o (answer 401 parsed) w
        ≡ recover net again host path o (error_of 401 parsed) w
  settle-recovers again path o parsed w asks =
      ap
        (λ b.
          if b
          then recover net again host path o (error_of 401 parsed) w
          else some (http_error (error_of 401 parsed), w))
        asks

  -- With any fuel, a plain request is one call of fetch.
  pub http_request-plain :
      (fuel : ℕ) (path : String) (o : Options) (w : Web)
      → IsPlain o
      → http_request net (suc fuel) host path o w
        ≡ some (
          outcome_of (fetch net (call_of net path o w) w).0,
          (fetch net (call_of net path o w) w).1,
        )
  unfolding http_request
  http_request-plain fuel path o w p =
      settle-plain (http_request net fuel host) path o (fetch net (call_of net path o w) w).0
        (fetch net (call_of net path o w) w).1 p

  on_refreshed-calls : (reply : Reply) (w : Web) → (on_refreshed net reply w).1.calls ≡ w.calls
  on_refreshed-calls unreachable w = refl
  on_refreshed-calls (answer status parsed) w =
      ground (arith, Bool-cases (is_ok status), Bool-cases (truthy (payload_token parsed)))

  abbrev refresh_call : Web → Call
  refresh_call w = record {
    path = "/auth/refresh";
    authorization = none;
    body = refresh_with (get_or w.refresh_token "");
  }

  if-Sends :
      (plan : List String) (b : Bool) (w : Web) (r s : Option String × Web)
      → Sends plan w r.1
      → Sends plan w s.1
      → Sends plan w (if b then r else s).1
  if-Sends plan true w r s h k = h
  if-Sends plan false w r s h k = k

  pub refresh_token-Sends : (w : Web) → Sends ("/auth/refresh" ∷ []) w (refresh_token net w).1
  unfolding refresh_token fetch
  refresh_token-Sends w =
      let (reply, u) = fetch net (refresh_call w) w in
      if-Sends ("/auth/refresh" ∷ []) (not (truthy w.refresh_token)) w (none, w)
        (on_refreshed net reply u) (Sends-none ("/auth/refresh" ∷ []) w w refl)
        (Sends-one (refresh_call w) w (on_refreshed net reply u).1 (on_refreshed-calls reply u))

  pub on_authorized-calls :
      (dev : Bool) (outcome : Outcome) (w : Web)
      → (on_authorized net dev outcome w).1.calls ≡ w.calls
  on_authorized-calls dev (ok (object p)) w = refl
  on_authorized-calls dev (ok (raw s)) w = refl
  on_authorized-calls dev (ok nothing) w = refl
  on_authorized-calls dev (http_error e) w =
      ground (arith, Bool-cases (eqb e.status 403 && same_text e.code "subscription_required"))
  on_authorized-calls dev thrown w = refl
