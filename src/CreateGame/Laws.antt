-- ===== src/CreateGame/Laws.antt =====
-- A game that is created, and the lobby and the table that it comes to.
use Prim.Native.String as Text
use durak_card_game.Prelude.{
  ℕ, ◌+◌, ◌≤◌, String, ◌≡◌, ◌≢◌, ◌⊎◌, refl, Bool, true, false, not, ◌==◌, ◌||◌, none, some, [], ◌∷◌,
  ◌++◌, arith, ltb, length, length-append, Bool-cases, eq_refl, ap, inl, inr, if◌then◌else◌,
}
use durak_card_game.CreateGame.{
  GameMode, podkidnoy, perevodnoy, text_of_mode, mode_to_room_mode, CreateReply, created, refused,
  failed, is_denied, CreatePage, validation_error, create_error, shown_or, handle_create, replied,
  retried, ask, go_to, give_up, payload,
}
use durak_card_game.Lobby.Search.{match_room_mode_stable, match_room_fairness_stable}
use durak_card_game.Selectors.{is_translate_mode}

abbrev pub is_perevodnoy : GameMode → Bool
is_perevodnoy podkidnoy = false
is_perevodnoy perevodnoy = true

abbrev pub same_mode : GameMode → GameMode → Bool
same_mode podkidnoy podkidnoy = true
same_mode perevodnoy perevodnoy = true
same_mode _ _ = false

-- The mode that a created room is given says what was chosen: the filter of the lobby for a mode
-- lets the room through just if it is its mode, the filters for fairness go by the choice of the
-- shuler, and the table lets a card be translated just in the mode for it.
pub mode_to_room_mode-understood :
    (base wanted : GameMode) (shuler : Bool)
    → (match_room_mode_stable (mode_to_room_mode base shuler) (text_of_mode wanted)
        ≡ same_mode base wanted)
      × (match_room_fairness_stable (mode_to_room_mode base shuler) "Шулер" ≡ shuler)
      × (match_room_fairness_stable (mode_to_room_mode base shuler) "Честная игра" ≡ not shuler)
      × (is_translate_mode (mode_to_room_mode base shuler) ≡ is_perevodnoy base)
unfolding mode_to_room_mode match_room_mode_stable match_room_fairness_stable is_translate_mode
mode_to_room_mode-understood podkidnoy podkidnoy false = (refl, refl, refl, refl)
mode_to_room_mode-understood podkidnoy podkidnoy true = (refl, refl, refl, refl)
mode_to_room_mode-understood podkidnoy perevodnoy false = (refl, refl, refl, refl)
mode_to_room_mode-understood podkidnoy perevodnoy true = (refl, refl, refl, refl)
mode_to_room_mode-understood perevodnoy podkidnoy false = (refl, refl, refl, refl)
mode_to_room_mode-understood perevodnoy podkidnoy true = (refl, refl, refl, refl)
mode_to_room_mode-understood perevodnoy perevodnoy false = (refl, refl, refl, refl)
mode_to_room_mode-understood perevodnoy perevodnoy true = (refl, refl, refl, refl)

abbrev is_failure : CreateReply → Bool
is_failure (created id) = false
is_failure _ = true

-- How a submission ends: no longer submitting, after at most two requests, either at the room that
-- was created, or where it was with an error to show.
pub record IsSettled (p q : CreatePage) : Type 0 where
  pub idle : q.is_submitting ≡ false
  pub asked : length q.asked ≤ length p.asked + 2
  pub ends :
      ((id : String) × (q.visited ≡ p.visited ++ (Text.◌++◌ "/room/" id) ∷ []))
      ⊎ ((message : String) × (q.visited ≡ p.visited) × (q.error ≡ some message) × (message ≢ ""))

module _ (t : String → String) (title : ℕ → String) (trim : String → String)
    (told : (k : String) → t k ≢ "") (trimmed : trim "" ≡ "") where
  shown_or-nonempty : (s fallback : String) → fallback ≢ "" → shown_or t title trim s fallback ≢ ""
  shown_or-nonempty s fallback h = elim (Bool-cases (trim s == "")) [
    | inl e ↦ rw e h
    | inr e ↦ rw e (λ empty. blank s empty e)
  ]
    where
      blank : (s : String) → s ≡ "" → (trim s == "") ≡ false → ⊥
      blank s e h = cc (e, trimmed, h, eq_refl "")

  create_error-nonempty : (r : CreateReply) → is_failure r ≡ true → create_error t title trim r ≢ ""
  unfolding create_error
  create_error-nonempty (created id) h = cc h
  create_error-nonempty (refused status none message) h = shown_or-nonempty message _ (told _)
  create_error-nonempty (refused status (some body) message) h =
      shown_or-nonempty body _ (shown_or-nonempty message _ (told _))
  create_error-nonempty (failed message) h = shown_or-nonempty message _ (told _)

  -- The page `q` is on the way from `p`: it was nowhere else, and asked at most `n` times.
  record OnTheWay (n : ℕ) (p q : CreatePage) : Type 0 where
    visited : q.visited ≡ p.visited
    asked : length q.asked ≤ length p.asked + n

  arrived :
      (p q : CreatePage) (id : String) → OnTheWay 2 p q → IsSettled p (go_to t title trim id q)
  arrived p q id w = record {
    idle = refl;
    asked = w.asked;
    ends = inl (id, ap (λ vs. vs ++ (Text.◌++◌ "/room/" id) ∷ []) w.visited);
  }

  refused-IsSettled :
      (p q : CreatePage) (r : CreateReply)
      → is_failure r ≡ true
      → OnTheWay 2 p q
      → IsSettled p (give_up t title trim r q)
  refused-IsSettled p q r h w = record {
    idle = refl;
    asked = w.asked;
    ends = inr (create_error t title trim r, w.visited, refl, create_error-nonempty r h);
  }

  asked-OnTheWay : (p q : CreatePage) → OnTheWay 1 p q → OnTheWay 2 p (ask t title trim q)
  asked-OnTheWay p q w = record {
    visited = w.visited;
    asked = omega (arith, length-append q.asked (payload t title trim q ∷ []), w.asked);
  }

  wider : (p q : CreatePage) → OnTheWay 1 p q → OnTheWay 2 p q
  wider p q w = record { visited = w.visited; asked = omega (arith, w.asked) }

  retried-IsSettled :
      (p q : CreatePage) (first second : CreateReply)
      → is_failure first ≡ true
      → OnTheWay 2 p q
      → IsSettled p (retried t title trim first second q)
  retried-IsSettled p q first (created id) h w = arrived p q id w
  retried-IsSettled p q first (refused status body message) h w = refused-IsSettled p q first h w
  retried-IsSettled p q first (failed message) h w = refused-IsSettled p q first h w

  if-IsSettled :
      (b : Bool) (p q r : CreatePage)
      → IsSettled p q
      → IsSettled p r
      → IsSettled p (if b then q else r)
  if-IsSettled true p q r h k = h
  if-IsSettled false p q r h k = k

  recovered-IsSettled :
      (p q : CreatePage) (first : CreateReply) (logged_in : Bool) (second : CreateReply)
      → is_failure first ≡ true
      → OnTheWay 1 p q
      → IsSettled p (
          if is_denied first
          then (if logged_in
              then retried t title trim first second (ask t title trim q)
              else give_up t title trim first q)
          else give_up t title trim first q)
  recovered-IsSettled p q first logged_in second h w =
      if-IsSettled (is_denied first) p _ _
        (if-IsSettled logged_in p _ _
          (retried-IsSettled p (ask t title trim q) first second h (asked-OnTheWay p q w))
          (refused-IsSettled p q first h (wider p q w)))
        (refused-IsSettled p q first h (wider p q w))

  replied-IsSettled :
      (p q : CreatePage) (first : CreateReply) (logged_in : Bool) (second : CreateReply)
      → OnTheWay 1 p q
      → IsSettled p (replied t title trim first logged_in second q)
  replied-IsSettled p q (created id) logged_in second w = arrived p q id (wider p q w)
  replied-IsSettled p q (refused status body message) logged_in second w =
      recovered-IsSettled p q (refused status body message) logged_in second refl w
  replied-IsSettled p q (failed message) logged_in second w =
      recovered-IsSettled p q (failed message) logged_in second refl w

module _ (t : String → String) (title : ℕ → String) (trim : String → String) (p : CreatePage) where
  invalid :
      (ltb p.stake_usd 1 || ltb 500 p.stake_usd) ≡ true
      → validation_error t title trim p ≡ some (t "create.error.range")
  unfolding validation_error
  invalid e = rw e refl

  valid :
      (ltb p.stake_usd 1 || ltb 500 p.stake_usd) ≡ false → validation_error t title trim p ≡ none
  unfolding validation_error
  valid e = rw e refl

-- Submitting the form of a page that is not submitting ends, whatever the server replies: the page
-- is no longer submitting, it asked for a room at most twice, and it is either on its way to a room
-- or where it was, with an error that is not empty, if no translation is.
pub handle_create-IsSettled :
    (t : String → String) (title : ℕ → String) (trim : String → String) (first : CreateReply)
    (logged_in : Bool) (second : CreateReply) (p : CreatePage)
    → ((k : String) → t k ≢ "")
    → trim "" ≡ ""
    → p.is_submitting ≡ false
    → IsSettled p (handle_create t title trim first logged_in second p)
unfolding handle_create
handle_create-IsSettled t title trim first logged_in second p told trimmed idle =
    elim (Bool-cases (ltb p.stake_usd 1 || ltb 500 p.stake_usd)) [
      | inl e ↦
          rw (invalid t title trim p e, handle_create)
            (record {
              idle = idle;
              asked = omega arith;
              ends = inr (t "create.error.range", refl, refl, told "create.error.range");
            })
      | inr e ↦
          rw (valid t title trim p e, handle_create)
            (replied-IsSettled t title trim told trimmed p
              (ask t title trim (record p { error = none; is_submitting = true })) first logged_in
              second
              (record {
                visited = refl;
                asked = omega (arith, length-append p.asked (payload t title trim p ∷ []));
              }))
    ]
