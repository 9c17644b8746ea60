-- ===== src/CreateGame.antt =====
-- The creation of a game: src/pages/create-game/CreateGamePage.tsx. The stake is a whole number of
-- dollars, as the slider gives it; the balance is in cents. `handleCreate` is a function of what its
-- requests come to. The translations and `trim` are arguments.
pub mod Laws
use Prim.Native.String
use durak_card_game.Prelude.{
  ℕ, ◌+◌, ◌-◌, ◌*◌, String, Bool, true, false, not, ◌==◌, ◌&&◌, ◌||◌, Option, none, some, List, [],
  ◌∷◌, ◌++◌, ltb, leb, eqb, truthy, if◌then◌else◌,
}
use durak_card_game.Prelude.Int.{ℤ, pos, ltb_ℤ}

-- `GameMode`
pub data GameMode : Type 0 where
  podkidnoy perevodnoy : GameMode

abbrev pub text_of_mode : GameMode → String
text_of_mode podkidnoy = "Подкидной"
text_of_mode perevodnoy = "Переводной"

unfoldable pub mode_to_room_mode : GameMode → Bool → String
mode_to_room_mode base false = text_of_mode base
mode_to_room_mode base true = String.◌++◌ (text_of_mode base) " Шулер"

-- `CreateRoomInput`
pub record CreateRoomInput : Type 0 where
  pub stake_usd : ℕ
  pub mode : String
  pub deck : ℕ
  pub max_players : ℕ
  pub title : String

pub record CreatePage : Type 0 where
  pub step : ℕ
  pub stake_usd : ℕ
  pub deck : ℕ
  pub max_players : ℕ
  pub base_mode : GameMode
  pub shuler_enabled : Bool
  pub balance : Option ℤ
  pub is_submitting : Bool
  pub error : Option String
  -- the rooms that were asked for, and the addresses navigated to
  pub asked : List CreateRoomInput
  pub visited : List String

-- the first state of the component
abbrev pub first_page : CreatePage
first_page = record {
  step = 0;
  stake_usd = 10;
  deck = 36;
  max_players = 2;
  base_mode = podkidnoy;
  shuler_enabled = false;
  balance = none;
  is_submitting = false;
  error = none;
  asked = [];
  visited = [];
}

unfoldable pub insufficient_funds : CreatePage → Bool
insufficient_funds p = elim p.balance [
  | none ↦ false
  | some cents ↦ ltb_ℤ cents (pos (100 * p.stake_usd))
]

-- what a request for a room comes to
pub data CreateReply : Type 0 where
  created : String → CreateReply
  -- an `HttpError`: its status, its body if that is a text, its message
  refused : ℕ → Option String → String → CreateReply
  -- any other error, with its message
  failed : String → CreateReply

abbrev pub is_denied : CreateReply → Bool
is_denied (refused status body message) = eqb status 401
is_denied _ = false

-- `Number(event.target.value) || 1`, on a slider from 1 to 500
unfoldable pub set_stake : ℕ → CreatePage → CreatePage
set_stake n p = record p { stake_usd = if eqb n 0 then 1 else n }

module _ (t : String → String) (table_title : ℕ → String) (trim : String → String) where
  unfoldable pub validation_error : CreatePage → Option String
  validation_error p =
      if ltb p.stake_usd 1 || ltb 500 p.stake_usd then some (t "create.error.range") else none

  abbrev pub payload : CreatePage → CreateRoomInput
  payload p = record {
    stake_usd = p.stake_usd;
    mode = mode_to_room_mode p.base_mode p.shuler_enabled;
    deck = p.deck;
    max_players = p.max_players;
    title = table_title p.stake_usd;
  }

  abbrev pub shown_or : String → String → String
  shown_or s fallback = if trim s == "" then fallback else s

  -- the text of an error that is not recovered from
  unfoldable pub create_error : CreateReply → String
  create_error (created id) = ""
  create_error (refused status none message) = shown_or message (t "create.error.failed")
  create_error (refused status (some body) message) =
      shown_or body (shown_or message (t "create.error.failed"))
  create_error (failed message) = shown_or message (t "create.error.failed")

  abbrev pub ask : CreatePage → CreatePage
  ask p = record p { asked = p.asked ++ payload p ∷ [] }

  abbrev pub go_to : String → CreatePage → CreatePage
  go_to id p = record p {
    visited = p.visited ++ (String.◌++◌ "/room/" id) ∷ [];
    is_submitting = false;
  }

  abbrev pub give_up : CreateReply → CreatePage → CreatePage
  give_up reply p = record p { error = some (create_error reply); is_submitting = false }

  -- the second try: its reply, or the first error again
  abbrev pub retried : CreateReply → CreateReply → CreatePage → CreatePage
  retried first (created id) p = go_to id p
  retried first _ p = give_up first p

  abbrev pub replied : CreateReply → Bool → CreateReply → CreatePage → CreatePage
  replied (created id) logged_in second p = go_to id p
  replied first logged_in second p =
      if is_denied first
      then (if logged_in then retried first second (ask p) else give_up first p)
      else give_up first p

  -- `handleCreate`, with the reply to its request, whether the new login works, and the reply to the
  -- request after it
  unfoldable pub handle_create : CreateReply → Bool → CreateReply → CreatePage → CreatePage
  unfolding validation_error create_error
  handle_create first logged_in second p = elim (validation_error p) [
    | some message ↦ record p { error = some message }
    | none ↦ replied first logged_in second (ask (record p { error = none; is_submitting = true }))
  ]

abbrev pub can_go_back : CreatePage → Bool
can_go_back p = ltb 0 p.step

abbrev pub can_go_forward : CreatePage → Bool
can_go_forward p = ltb p.step 2
