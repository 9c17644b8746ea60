-- ===== src/Lobby/Search.antt =====
-- Which rooms the filters leave, of src/pages/Play/PlayPage.tsx, and where the page goes from them.
use Prim.Native.String
use durak_card_game.Prelude.{
  ℕ, String, Bool, true, false, not, ◌==◌, ◌&&◌, ◌||◌, Option, none, some, List, ltb, leb, eqb,
  find, filter, lower_includes, if◌then◌else◌,
}
use durak_card_game.Rooms.{Room}
use durak_card_game.Lobby.{Choice, FilterState, all, only}

abbrev pub is_podkid : String → Bool
is_podkid s = lower_includes s "подкид" || lower_includes s "podkid"

abbrev pub is_perevod : String → Bool
is_perevod s = lower_includes s "перевод" || lower_includes s "perevod"

abbrev pub is_shuler : String → Bool
is_shuler s = lower_includes s "шулер" || lower_includes s "shuler"

unfoldable pub room_matches_mode : String → String → Bool
unfolding lower_includes
room_matches_mode room_mode filter_mode =
    if filter_mode == "all"
    then true
    else if filter_mode == "Подкидной"
    then is_podkid room_mode
    else is_perevod room_mode

unfoldable pub room_matches_fairness : String → String → Bool
unfolding lower_includes
room_matches_fairness room_mode filter_fairness =
    if filter_fairness == "all"
    then true
    else if filter_fairness == "Шулер"
    then is_shuler room_mode
    else not (is_shuler room_mode)

unfoldable pub match_room_mode_stable : String → String → Bool
unfolding lower_includes
match_room_mode_stable room_mode filter_mode =
    if filter_mode == "all"
    then true
    else if is_podkid filter_mode
    then is_podkid room_mode
    else is_perevod room_mode

unfoldable pub match_room_fairness_stable : String → String → Bool
unfolding lower_includes
match_room_fairness_stable room_mode filter_fairness =
    if filter_fairness == "all"
    then true
    else if is_shuler filter_fairness
    then is_shuler room_mode
    else not (is_shuler room_mode)

-- `formatModeLabel`, the translations an argument
unfoldable pub format_mode_label : (String → String) → String → String
unfolding lower_includes
format_mode_label t mode =
    let base =
      if is_podkid mode
      then t "play.types.podkidnoy"
      else if is_perevod mode
      then t "play.types.perevodnoy"
      else mode in
    if is_shuler mode then String.◌++◌ base (String.◌++◌ " " (t "play.types.shuler")) else base

-- `choice === "all" ? true : value === choice`; `NaN` equals nothing
abbrev pub fits : Choice → Option ℕ → Bool
fits all value = true
fits (only n) none = false
fits (only n) (some m) = eqb m n

abbrev pub at_most : Option ℕ → ℕ → Bool
at_most none n = false
at_most (some m) n = leb m n

abbrev pub below : ℕ → Option ℕ → Bool
below n none = false
below n (some m) = ltb n m

-- the test of `filteredRooms`
unfoldable pub passes : FilterState → Room → Bool
passes f r =
    match_room_mode_stable r.mode f.mode
    && (match_room_fairness_stable r.mode f.fairness
        && (at_most r.stake_usd f.max_stake
            && (fits f.deck r.deck && fits f.max_players r.max_players)))

unfoldable pub filtered_rooms : FilterState → List Room → List Room
filtered_rooms f rooms = filter (passes f) rooms

unfoldable pub quick_room : FilterState → List Room → Option Room
unfolding filtered_rooms
quick_room f rooms = find (λ r. below r.players r.max_players) (filtered_rooms f rooms)

-- `handleQuickGame`: the address that it navigates to
unfoldable pub handle_quick_game : FilterState → List Room → String
handle_quick_game f rooms = elim (quick_room f rooms) [
  | some r ↦ String.◌++◌ "/room/" r.id
  | none ↦ "/play/create"
]

-- `handleConnectById`, with `trim` an argument: the address, or the error
unfoldable pub handle_connect_by_id :
    (String → String) → (String → String) → String → Option String × Option String
handle_connect_by_id trim t join_room_id =
    if trim join_room_id == ""
    then (none, some (t "play.quick.enterId"))
    else (some (String.◌++◌ "/room/" (trim join_room_id)), none)
