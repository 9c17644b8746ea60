-- ===== src/Tests/Lobby.antt =====
-- The theorems on rooms, the lobby and the creation of games at concrete inputs.
use Prim.Native.String as Text
use durak_card_game.Prelude.{
  ℕ, zero, suc, String, ◌≡◌, ◌≢◌, ◌⊎◌, refl, true, false, not, ◌==◌, Option, none, some, List, [],
  ◌∷◌, ◌++◌, All, arith, ap, eq_iff, eq_refl, if◌then◌else◌,
}
use durak_card_game.Rooms.{Room}
use durak_card_game.Rooms.Laws.{IsNormal}
use durak_card_game.Lobby.{FilterState, all, only, Query, search_of, stored, first_filters}
use durak_card_game.Lobby.Search.{
  match_room_mode_stable, match_room_fairness_stable, room_matches_mode, room_matches_fairness,
  handle_quick_game,
}
use durak_card_game.Lobby.Valid.{IsValid}
use durak_card_game.Lobby.Kept.{first_filters-kept}
use durak_card_game.Lobby.Matching.{stable-agrees, Suits, handle_quick_game-first}
use durak_card_game.GameRoom.{RoomPage, Translate, room_of, can_start}
use durak_card_game.GameRoom.Laws.{IsAt, start, press, request, enabled-requests}
use durak_card_game.CreateGame.{
  perevodnoy, podkidnoy, text_of_mode, mode_to_room_mode, handle_create, first_page, refused,
  created,
}
use durak_card_game.CreateGame.Laws.{
  same_mode, is_perevodnoy, mode_to_room_mode-understood, IsSettled, handle_create-IsSettled,
}
use durak_card_game.Selectors.{is_translate_mode}
use durak_card_game.Tests.{differ}

abbrev table : Room
table = record {
  id = "room-1";
  title = "Стол";
  stake_usd = some 10;
  players = 2;
  player_ids = "me" ∷ "ann" ∷ [];
  max_players = some 3;
  deck = some 36;
  mode = "Подкидной";
  status = some "waiting";
  match_id = some "";
  ready_players = some 2;
  ready_user_ids = "me" ∷ "ann" ∷ [];
  stake_confirmed_players = some 0;
  stake_confirmed_user_ids = [];
  stake_confirm_deadline = none;
}

table-IsNormal : IsNormal table
table-IsNormal = record {
  players = λ _. refl;
  ready = λ _. refl;
  confirmed = λ h. absurd (omega arith);
  deadline = λ n h. cc h;
}

abbrev filters : FilterState
filters = record {
  mode = "Подкидной";
  fairness = "Честная игра";
  max_stake = 50;
  deck = only 36;
  max_players = all;
}

filters-IsValid : IsValid filters
filters-IsValid = record { mode = refl; fairness = refl; stake = refl; deck = refl; seats = tt }

stable-agrees_example :
    (match_room_mode_stable table.mode filters.mode ≡ room_matches_mode table.mode filters.mode)
    × (match_room_fairness_stable table.mode filters.fairness
        ≡ room_matches_fairness table.mode filters.fairness)
stable-agrees_example = stable-agrees filters table.mode filters-IsValid

handle_quick_game-first_example :
    ((handle_quick_game filters (table ∷ []) ≡ "/play/create")
      × All (λ r. ¬ Suits filters r) (table ∷ []))
    ⊎ ((r : Room) × (before after : List Room) × (handle_quick_game filters (table ∷ [])
          ≡ Text.◌++◌ "/room/" r.id)
        × (table ∷ [] ≡ before ++ r ∷ after)
        × All (λ s. ¬ Suits filters s) before
        × Suits filters r)
handle_quick_game-first_example = handle_quick_game-first filters (table ∷ []) filters-IsValid

abbrev here : RoomPage
here = record {
  id = some "room-1";
  rooms = table ∷ [];
  error = none;
  info_message = none;
  is_ready_loading = false;
  is_start_loading = false;
  is_waiting_start = false;
  current_user_id = "me";
  sent = [];
  requested = [];
  visited = [];
}

here-IsAt : IsAt "room-1" table here
unfolding room_of
here-IsAt = record { at = refl; named = refl; known = refl; normal = table-IsNormal }

abbrev keys : Translate
keys key params = key

enabled-requests_example :
    (press keys start here).requested ≡ here.requested ++ request start "room-1" ∷ []
unfolding can_start room_of
enabled-requests_example = enabled-requests keys start here here-IsAt refl refl

mode_to_room_mode-understood_example :
    (match_room_mode_stable (mode_to_room_mode perevodnoy true) (text_of_mode podkidnoy)
      ≡ same_mode perevodnoy podkidnoy)
    × (match_room_fairness_stable (mode_to_room_mode perevodnoy true) "Шулер" ≡ true)
    × (match_room_fairness_stable (mode_to_room_mode perevodnoy true) "Честная игра" ≡ not true)
    × (is_translate_mode (mode_to_room_mode perevodnoy true) ≡ is_perevodnoy perevodnoy)
mode_to_room_mode-understood_example = mode_to_room_mode-understood perevodnoy podkidnoy true

handle_create-IsSettled_example : IsSettled first_page (
    handle_create
      (λ key. "?")
      (λ stake. "Стол")
      (λ s. s)
      (refused 401 none "")
      true
      (created "room-9")
      first_page)
handle_create-IsSettled_example =
    handle_create-IsSettled (λ key. "?") (λ stake. "Стол") (λ s. s) (refused 401 none "") true
      (created "room-9") first_page (λ key. differ "?" "" refl) refl refl

-- A query as a list of keys and values, with a number as that many strokes and one more.
put : String → String → List (String × String) → List (String × String)
put k v m = (k, v) ∷ m

look : String → List (String × String) → Option String
look k [] = none
look k ((j, v) ∷ m) = if j == k then some v else look k m

look_nothing : (k : String) → look k [] ≡ none
unfolding look
look_nothing k = refl

strokes : ℕ → String
strokes zero = "|"
strokes (suc n) = Text.◌∷◌ "|" (strokes n)

count : String → ℕ
count Text.[] = 0
count (Text.◌∷◌ c s) = suc (count s)

number_of : String → Option ℕ
number_of Text.[] = none
number_of (Text.◌∷◌ c s) = some (count s)

count-strokes : (n : ℕ) → count (strokes n) ≡ suc n
unfolding count strokes
count-strokes zero = refl
count-strokes (suc n) = ap suc (count-strokes n)

number_of-strokes : (n : ℕ) → number_of (strokes n) ≡ some n
unfolding number_of strokes count
number_of-strokes zero = refl
number_of-strokes (suc n) = ap some (count-strokes n)

strokes-nonempty : (n : ℕ) → strokes n ≢ ""
unfolding number_of
strokes-nonempty n e = cc (number_of-strokes n, ap number_of e)

look-put : (k v : String) (m : List (String × String)) → look k (put k v m) ≡ some v
unfolding look put
look-put k v m = rw (eq_refl k) refl

look-put_other :
    (k j v : String) (m : List (String × String)) → j ≢ k → look k (put j v m) ≡ look k m
unfolding look put
look-put_other k j v m h = ground (arith, eq_iff j k, h)

abbrev query : Query
query = record {
  Params = List (String × String);
  empty = [];
  set = put;
  get = look;
  text_of = strokes;
  number_of = number_of;
  get-empty = λ k. look_nothing k;
  get-set = look-put;
  get-set_other = look-put_other;
  number_of-text_of = number_of-strokes;
  text_of-nonempty = strokes-nonempty;
}

first_filters-kept_example :
    first_filters query (search_of query filters) (some (stored filters)) ≡ filters
first_filters-kept_example = first_filters-kept query filters filters-IsValid
