-- ===== src/Lobby.antt =====
-- The lobby: the filters of src/pages/Play/PlayPage.tsx, where they are kept, and the rooms that
-- they leave. The query of the address and the conversions of numbers are a parameter, with what
-- `URLSearchParams`, `String` and `Number` are documented to do.
pub mod Search
pub mod Valid
pub mod Kept
pub mod Matching
use Prim.Native.String
use durak_card_game.Prelude.{
  ℕ, String, ◌≡◌, ◌≢◌, Bool, true, false, not, ◌==◌, ◌&&◌, ◌||◌, Option, none, some, List, [], ◌∷◌,
  ltb, leb, eqb, find, filter, lower_includes, is_some, or_else, if◌then◌else◌,
}
use durak_card_game.Rooms.{Room, Value, missing, number, text}

-- `"all"`, or one of the numbers on offer
pub data Choice : Type 0 where
  all : Choice
  only : ℕ → Choice

pub record FilterState : Type 0 where
  pub mode : String
  pub fairness : String
  pub max_stake : ℕ
  pub deck : Choice
  pub max_players : Choice

-- `Partial<FilterState>`, as it comes out of the address or the storage
pub record PartialFilters : Type 0 where
  pub mode : Value
  pub fairness : Value
  pub max_stake : Value
  pub deck : Value
  pub max_players : Value

abbrev pub initial_filters : FilterState
initial_filters = record {
  mode = "all";
  fairness = "all";
  max_stake = 500;
  deck = all;
  max_players = all;
}

abbrev pub is_valid_mode : String → Bool
is_valid_mode s = s == "all" || (s == "Подкидной" || s == "Переводной")

abbrev pub is_valid_fairness : String → Bool
is_valid_fairness s = s == "all" || (s == "Честная игра" || s == "Шулер")

abbrev pub is_deck : ℕ → Bool
is_deck n = eqb n 24 || (eqb n 36 || eqb n 52)

abbrev pub is_seat_count : ℕ → Bool
is_seat_count n = eqb n 2 || (eqb n 3 || eqb n 4)

abbrev pub is_stake : ℕ → Bool
is_stake n = leb 1 n && leb n 500

-- a text that passes the test, or `"all"`
abbrev pub text_or_all : (String → Bool) → Value → String
text_or_all valid (text s) = if valid s then s else "all"
text_or_all valid _ = "all"

-- a number that passes the test, or `"all"`
abbrev pub choice_or_all : (ℕ → Bool) → Value → Choice
choice_or_all valid (number n) = if valid n then only n else all
choice_or_all valid _ = all

abbrev pub stake_or_initial : Value → ℕ
stake_or_initial (number n) = if is_stake n then n else initial_filters.max_stake
stake_or_initial _ = initial_filters.max_stake

unfoldable pub normalize_filters : PartialFilters → FilterState
normalize_filters p = record {
  mode = text_or_all is_valid_mode p.mode;
  fairness = text_or_all is_valid_fairness p.fairness;
  max_stake = stake_or_initial p.max_stake;
  deck = choice_or_all is_deck p.deck;
  max_players = choice_or_all is_seat_count p.max_players;
}

-- `URLSearchParams`, `String(n)` and `Number(text)`
pub record Query : Type 1 where
  pub Params : Type 0
  pub empty : Params
  pub set : String → String → Params → Params
  pub get : String → Params → Option String
  pub text_of : ℕ → String
  pub number_of : String → Option ℕ
  pub get-empty : (k : String) → get k empty ≡ none
  pub get-set : (k v : String) (p : Params) → get k (set k v p) ≡ some v
  pub get-set_other : (k j v : String) (p : Params) → j ≢ k → get k (set j v p) ≡ get k p
  pub number_of-text_of : (n : ℕ) → number_of (text_of n) ≡ some n
  pub text_of-nonempty : (n : ℕ) → text_of n ≢ ""

-- `if (param) { … }`: the field stays unset for a missing or empty parameter
abbrev pub with_param : Option String → (String → Value) → Value
with_param none read = missing
with_param (some s) read = if s == "" then missing else read s

-- a number that passes the test, or the text `"all"`
abbrev pub number_or_all : (ℕ → Bool) → Option ℕ → Value
number_or_all valid none = text "all"
number_or_all valid (some n) = if valid n then number n else text "all"

abbrev pub number_or_unset : Option ℕ → Value
number_or_unset none = missing
number_or_unset (some n) = number n

module _ (q : Query) where
  open q use {Params, get, set, empty, text_of, number_of}

  abbrev pub has : String → Params → Bool
  has k params = is_some (get k params)

  abbrev pub has_any : Params → Bool
  has_any params =
      has "mode" params
      || (has "fairness" params
          || (has "deck" params || (has "maxPlayers" params || has "maxStake" params)))

  -- `parseFiltersFromSearch`; an empty search has no parameter
  unfoldable pub parse_filters_from_search : Params → Option FilterState
  unfolding normalize_filters
  parse_filters_from_search params =
      if not (has_any params)
      then none
      else some (
          normalize_filters (record {
            mode = with_param (get "mode" params) text;
            fairness = with_param (get "fairness" params) text;
            deck = with_param (get "deck" params) (λ s. number_or_all is_deck (number_of s));
            max_players =
                with_param (get "maxPlayers" params)
                  (λ s. number_or_all is_seat_count (number_of s));
            max_stake = with_param (get "maxStake" params) (λ s. number_or_unset (number_of s));
          }))

  abbrev pub set_text : String → String → Params → Params
  set_text k s params = if s == "all" then params else set k s params

  abbrev pub set_choice : String → Choice → Params → Params
  set_choice k all params = params
  set_choice k (only n) params = set k (text_of n) params

  abbrev pub set_stake : ℕ → Params → Params
  set_stake n params =
      if eqb n initial_filters.max_stake then params else set "maxStake" (text_of n) params

  -- the effect that writes the filters to the address
  unfoldable pub search_of : FilterState → Params
  search_of f = set_stake f.max_stake (
      set_choice "maxPlayers" f.max_players
        (set_choice "deck" f.deck (set_text "fairness" f.fairness (set_text "mode" f.mode empty))))

-- `parseFiltersFromStorage`: `none` is a missing entry, or one that `JSON.parse` refuses
unfoldable pub parse_filters_from_storage : Option PartialFilters → Option FilterState
unfolding normalize_filters
parse_filters_from_storage none = none
parse_filters_from_storage (some parsed) = some (normalize_filters parsed)

abbrev pub value_of_choice : Choice → Value
value_of_choice all = text "all"
value_of_choice (only n) = number n

-- what the same effect writes to the storage, as `JSON.parse` reads it again
unfoldable pub stored : FilterState → PartialFilters
stored f = record {
  mode = text f.mode;
  fairness = text f.fairness;
  max_stake = number f.max_stake;
  deck = value_of_choice f.deck;
  max_players = value_of_choice f.max_players;
}

-- the first value of the state `filters`
unfoldable pub first_filters : (q : Query) → q.Params → Option PartialFilters → FilterState
unfolding parse_filters_from_search parse_filters_from_storage
first_filters q search storage = elim (parse_filters_from_search q search) [
  | some f ↦ f
  | none ↦ elim (parse_filters_from_storage storage) [ some f ↦ f | none ↦ initial_filters ]
]
