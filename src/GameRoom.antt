-- ===== src/GameRoom.antt =====
-- The page of a room before the match: src/pages/GameRoom/GameRoomPage.tsx. A handler that awaits
-- the server is two functions: what it does up to the request, and what it does with the reply.
-- The page's effects are lists in the page's state: messages on the socket, requests over HTTP and
-- the addresses that were navigated to. The translations `t` and the clock are arguments.
pub mod Errors
pub mod Laws
use Prim.Native.String
use durak_card_game.Prelude.{
  ℕ, ◌+◌, ◌-◌, ◌/◌, String, Bool, true, false, not, ◌==◌, ◌&&◌, ◌||◌, Option, none, some, List, [],
  ◌∷◌, ◌++◌, ltb, leb, eqb, length, find, filter, includes, codes, starts, get_or, truthy,
  same_text, get_elem?, if◌then◌else◌,
}
use durak_card_game.Rooms.{Room, RawRoom, Conversions, is_truthy, normalize_room}
use durak_card_game.Join.State.{ClientEvent, confirm_join, confirm_stake, start_game}

-- `t(key, params)`
abbrev pub Translate : Type 0
Translate = String → List (String × ℕ) → String

pub data Request : Type 0 where
  ready_room start_room confirm_stake_room get_room : String → Request

-- the state of the component, with its effects so far
pub record RoomPage : Type 0 where
  pub id : Option String
  pub rooms : List Room
  pub error : Option String
  pub info_message : Option String
  pub is_ready_loading : Bool
  pub is_start_loading : Bool
  pub is_waiting_start : Bool
  pub current_user_id : String
  pub sent : List ClientEvent
  pub requested : List Request
  pub visited : List String

abbrev pub room_with : Option String → List Room → Option Room
room_with none rooms = none
room_with (some id) rooms = find (λ r. r.id == id) rooms

unfoldable pub room_of : RoomPage → Option Room
room_of p = room_with p.id p.rooms

abbrev pub players_count : Room → ℕ
players_count r = length r.player_ids

abbrev pub is_bot : String → Bool
is_bot player_id = starts (codes "bot:") (codes player_id)

-- `playerIds.filter((id) => !id.startsWith("bot:")).length || fallback`
unfoldable pub real_players : Room → ℕ → ℕ
real_players r fallback =
    let n = length (filter (λ player_id. not (is_bot player_id)) r.player_ids) in
    if eqb n 0 then fallback else n

abbrev pub is_confirmed : List String → String → Bool
is_confirmed ids user = if user == "" then false else includes ids user

abbrev pub is_creator : Room → String → Bool
is_creator r user = not (user == "") && same_text (get_elem? r.player_ids 0) user

abbrev pub all_ready : Room → Bool
all_ready r = leb r.players (get_or r.ready_players 0)

abbrev pub all_stake_confirmed : Room → Bool
all_stake_confirmed r = leb (real_players r (players_count r)) (get_or r.stake_confirmed_players 0)

abbrev pub on_room : Option Room → (Room → Bool) → Bool
on_room none test = false
on_room (some r) test = test r

unfoldable pub can_confirm : RoomPage → Bool
can_confirm p = on_room (room_of p) λ r.
    same_text r.status "waiting"
    && (leb 2 (players_count r) && not (is_confirmed r.ready_user_ids p.current_user_id))

unfoldable pub can_confirm_stake : RoomPage → Bool
can_confirm_stake p = on_room (room_of p) λ r.
    same_text r.status "awaiting_stake_confirm"
    && (leb 2 (players_count r) && not (is_confirmed r.stake_confirmed_user_ids p.current_user_id))

unfoldable pub can_start : RoomPage → Bool
can_start p = on_room (room_of p) λ r.
    same_text r.status "waiting"
    && (is_creator r p.current_user_id && (all_ready r && leb 2 (players_count r)))

-- `!id`
abbrev pub with_id : RoomPage → (String → RoomPage) → RoomPage
with_id p act = elim p.id [ none ↦ p | some id ↦ if id == "" then p else act id ]

abbrev pub say : String → RoomPage → RoomPage
say message p = record p { info_message = some message }

-- `setError(null)`, `setInfoMessage(null)`
abbrev pub cleared : RoomPage → RoomPage
cleared p = record p { error = none; info_message = none }

abbrev pub visit_game : String → RoomPage → RoomPage
visit_game id p = record p { visited = p.visited ++ (String.◌++◌ "/game/" id) ∷ [] }

module _ (t : Translate) where
  -- `confirmReady`, up to the reply of the server
  unfoldable pub confirm_ready : RoomPage → RoomPage
  confirm_ready p = with_id p λ id.
      if p.is_ready_loading
      then p
      else if on_room (room_of p) (λ r. leb 2 r.players)
      then record (cleared p) {
        is_ready_loading = true;
        sent = p.sent ++ confirm_join id ∷ [];
        requested = p.requested ++ ready_room id ∷ [];
      }
      else say (t "room.noOpponent" []) p

  -- `confirmReady` from the reply on, and its `finally`
  unfoldable pub ready_replied : String → Room → RoomPage → RoomPage
  ready_replied id updated p =
      let q = record p {
        rooms = updated ∷ [];
        info_message = some (t "room.readySent" []);
        is_waiting_start = true;
        is_ready_loading = false;
      } in
      if truthy updated.match_id then visit_game id q else q

  -- `confirmStake`, up to the reply
  unfoldable pub confirm_stake_of : RoomPage → RoomPage
  confirm_stake_of p = with_id p λ id.
      if not (on_room (room_of p) (λ r. same_text r.status "awaiting_stake_confirm"))
      then p
      else if p.is_ready_loading
      then p
      else record (cleared p) {
        is_ready_loading = true;
        sent = p.sent ++ confirm_stake id ∷ [];
        requested = p.requested ++ confirm_stake_room id ∷ [];
      }

  unfoldable pub stake_replied : String → Room → RoomPage → RoomPage
  stake_replied id updated p =
      let q = record p {
        rooms = updated ∷ [];
        is_waiting_start = true;
        is_ready_loading = false;
      } in
      if truthy updated.match_id then visit_game id q else say (t "room.stakeConfirmed" []) q

  -- `handleStart`, up to the reply
  unfoldable pub handle_start : RoomPage → RoomPage
  handle_start p = with_id p λ id.
      if p.is_start_loading
      then p
      else if on_room (room_of p) (λ r. same_text r.status "awaiting_stake_confirm")
      then say (t "room.needStakeBeforeStart" []) p
      else if on_room (room_of p) (λ r. leb 2 r.players && all_ready r)
      then record (cleared p) {
        is_start_loading = true;
        sent = p.sent ++ start_game id ∷ [];
        requested = p.requested ++ start_room id ∷ [];
      }
      else say (t "room.needAllReady" []) p

  unfoldable pub start_replied : String → Room → RoomPage → RoomPage
  start_replied id updated p =
      let q = record p { rooms = updated ∷ []; is_start_loading = false } in
      if truthy updated.match_id then visit_game id q else q

  -- `Math.ceil(ms / 1000)`
  abbrev pub seconds_of : ℕ → ℕ
  seconds_of ms = (ms + 999) / 1000

  abbrev pub stake_progress : ℕ → Room → ℕ → String
  stake_progress clock r total = elim r.stake_confirm_deadline [
    | some deadline ↦ t "room.stakeProgressLeft" (
        ("confirmed", get_or r.stake_confirmed_players 0)
        ∷ ("total", total)
        ∷ ("seconds", seconds_of (deadline - clock))
        ∷ [])
    | none ↦
        t "room.stakeProgress"
          (("confirmed", get_or r.stake_confirmed_players 0) ∷ ("total", total) ∷ [])
  ]

  -- `readyPlayers && readyPlayers >= maxPlayers`; no number is above `NaN`
  abbrev pub is_full_ready : Option ℕ → Option ℕ → Bool
  is_full_ready (some n) (some m) = ltb 0 n && leb m n
  is_full_ready _ _ = false

  -- what the update of the page's own room, already shown, adds
  unfoldable pub told_of_update : ℕ → String → Room → RoomPage → RoomPage
  told_of_update clock id r p =
      if truthy r.match_id
      then visit_game id p
      else if same_text r.status "awaiting_stake_confirm"
      then (let total = real_players r r.players in
          if ltb 0 total then say (stake_progress clock r total) p else p)
      else if is_full_ready r.ready_players r.max_players
      then say
          (if same_text (get_elem? r.player_ids 0) p.current_user_id
            then t "room.readyAllCreator" []
            else t "room.readyAllWaitCreator" [])
          p
      else p

  module _ (c : Conversions) where
    -- the handler of `room_update`, for a payload that is an object
    unfoldable pub on_room_update : ℕ → RawRoom → RoomPage → RoomPage
    on_room_update clock raw p = with_id p λ id.
        if not (is_truthy raw.id) && not (is_truthy raw.room_id)
        then p
        else let r = normalize_room c raw in
          if not (r.id == id) then p else told_of_update clock id r (record p { rooms = r ∷ [] })

  -- a round of the interval that asks for the room: the request
  unfoldable pub poll : RoomPage → RoomPage
  poll p = with_id p λ id.
      if p.is_waiting_start then record p { requested = p.requested ++ get_room id ∷ [] } else p

  -- its reply
  unfoldable pub polled : String → Room → RoomPage → RoomPage
  polled id next p =
      let q = record p { rooms = next ∷ [] } in if truthy next.match_id then visit_game id q else q
