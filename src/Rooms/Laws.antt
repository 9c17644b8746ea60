-- ===== src/Rooms/Laws.antt =====
-- What every room that came through `normalizeRoom` has.
use durak_card_game.Prelude.{ℕ, ◌<◌, ◌≡◌, ap, String, Option, none, some, List, length, arith}
use durak_card_game.Rooms.{
  Room, Value, RawRoom, Conversions, positive, count_of, deadline_of, normalize_room,
}

-- The list of members, where it is known, is as long as the count says; the other counts are
-- there and agree with their lists in the same way; a deadline lies after the start of the clock.
pub record IsNormal (r : Room) : Type 0 where
  pub players : 0 < length r.player_ids → r.players ≡ length r.player_ids
  pub ready : 0 < length r.ready_user_ids → r.ready_players ≡ some (length r.ready_user_ids)
  pub confirmed :
      0 < length r.stake_confirmed_user_ids
      → r.stake_confirmed_players ≡ some (length r.stake_confirmed_user_ids)
  pub deadline : (n : ℕ) → r.stake_confirm_deadline ≡ some n → 0 < n

count_of-long :
    (c : Conversions) (ids : List String) (raw : Value)
    → 0 < length ids
    → count_of c ids raw ≡ length ids
count_of-long c ids raw h = ground arith

positive-pos : (o : Option ℕ) (n : ℕ) → positive o ≡ some n → 0 < n
positive-pos none n h = cc
positive-pos (some m) n h = ground arith

-- Every room made by normalizeRoom has as many players, ready users and confirmed stakes as the
-- lists name, wherever those lists are not empty, and a deadline, if any, that is not 0.
pub normalize_room-IsNormal : (c : Conversions) (raw : RawRoom) → IsNormal (normalize_room c raw)
unfolding normalize_room
normalize_room-IsNormal c raw = record {
  players = λ h. count_of-long c _ raw.players h;
  ready = λ h. ap some (count_of-long c _ _ h);
  confirmed = λ h. ap some (count_of-long c _ _ h);
  deadline = λ n h. positive-pos (deadline_of c raw) n h;
}
