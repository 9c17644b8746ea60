-- ===== src/Tests/Table.antt =====
-- The theorems on cards, moves, drops, seats and errors at concrete inputs.
use durak_card_game.Prelude.{
  ◌⊎◌, inl, inr, ◌<◌, ℕ, ◌+◌, ◌-◌, ◌≡◌, ◌≢◌, ◌↔◌, refl, true, false, some, List, ◌∷◌, arith, leb,
}
use durak_card_game.Card.{rank_value, card_beats}
use durak_card_game.Card.Order.{card_beats-by_strength, card_beats_asymm}
use durak_card_game.Match.{Seat}
use durak_card_game.Play.{defend, allow, can_play_card}
use durak_card_game.Play.Rules.{CanPlay}
use durak_card_game.Play.Laws.{can_play_card-CanPlay_iff, can_play_card-IsConsistent, IsConsistent}
use durak_card_game.Drop
use durak_card_game.Drop.{Coord, table, accept, reject_silent, detect_zone, validate_card_drop}
use durak_card_game.Drop.Laws.{IsNear, MayPlay, validate_card_drop-accept_iff, detect_zone_inside}
use durak_card_game.Selectors.{
  playing, select_current_phase, select_can_attack, select_can_defend, select_can_throw,
  select_can_translate,
}
use durak_card_game.Selectors.Ordered.{select_ordered_seats, seats_of}
use durak_card_game.Selectors.Seats.{select_ordered_seats-first}
use durak_card_game.Selectors.Laws.{Excludes, actions_exclusive}
use durak_card_game.Store.{initial_state}
use durak_card_game.Tests.{differ, six, nine, defending, showing}

can_play_card-CanPlay_iff_example :
    (can_play_card nine (some defending) (some "me") ≡ allow defend)
    ↔ CanPlay nine defending "me" defend
can_play_card-CanPlay_iff_example =
    can_play_card-CanPlay_iff nine defending "me" defend (differ "me" "" refl)

can_play_card-IsConsistent_example : IsConsistent (can_play_card nine (some defending) (some "me"))
can_play_card-IsConsistent_example = can_play_card-IsConsistent nine (some defending) (some "me")

card_beats-by_strength_example :
    (card_beats six nine "spades" ≡ true)
    ↔ (((nine.suit ≡ "spades") × (six.suit ≢ "spades")) ⊎ ((nine.suit ≡ six.suit) × (6 < 9)))
card_beats-by_strength_example =
    card_beats-by_strength six nine "spades" 6 9 (inr (inr (inr (inr (inl (refl, refl))))))
      (inr (inr (inr (inr (inr (inr (inr (inl (refl, refl)))))))))

card_beats_asymm_example : card_beats nine six "spades" ≡ false
unfolding card_beats rank_value
card_beats_asymm_example = card_beats_asymm six nine "spades" refl

leb_trans : (x y z : ℕ) → leb x y ≡ true → leb y z ≡ true → leb x z ≡ true
leb_trans x y z h k = ground arith

leb-minus : (x : ℕ) → leb (x - 30) x ≡ true
leb-minus x = ground arith

leb-plus : (x : ℕ) → leb x (x + 30) ≡ true
leb-plus x = ground arith

minus_mono : (x y : ℕ) → leb x y ≡ true → leb (x - 30) (y - 30) ≡ true
minus_mono x y h = ground arith

plus_mono : (x y : ℕ) → leb x y ≡ true → leb (x + 30) (y + 30) ≡ true
plus_mono x y h = ground arith

-- Numbers of the screen that are whole and not below the left and upper edge.
abbrev pixels : Coord
pixels = record {
  Number = ℕ;
  le = leb;
  minus_snap = λ x. x - 30;
  plus_snap = λ x. x + 30;
  le_trans = leb_trans;
  minus_snap-le = leb-minus;
  le-plus_snap = leb-plus;
  minus_snap_mono = minus_mono;
  plus_snap_mono = plus_mono;
}

abbrev felt : Drop.TableRect pixels
felt = record { left = 100; top = 100; right = 300; bottom = 200 }

abbrev drop : Drop.DropContext pixels
drop = record {
  card = nine;
  position = record { x = 310; y = 150 };
  table_rect = some felt;
  match_state = some defending;
  current_user_id = some "me";
  interaction_locked = false;
}

validate_card_drop-accept_iff_example : (validate_card_drop pixels drop ≡ accept defend "9H") ↔ (
    (drop.interaction_locked ≡ false)
    × IsNear pixels drop.position drop.table_rect
    × (drop.card.id ≡ "9H")
    × MayPlay drop.card drop.match_state drop.current_user_id defend)
validate_card_drop-accept_iff_example = validate_card_drop-accept_iff pixels drop defend "9H"

detect_zone_inside_example :
    detect_zone pixels (record { x = 200; y = 150 }) (some felt) ≡ some table
detect_zone_inside_example =
    detect_zone_inside pixels (record { x = 200; y = 150 }) felt refl refl refl refl

not_playing : select_current_phase initial_state ≢ some playing
unfolding select_current_phase
not_playing h = cc h

actions_exclusive_example :
    Excludes
      (select_can_attack (showing defending) (some "me"))
      (select_can_defend (showing defending) (some "me"))
    × Excludes
        (select_can_attack (showing defending) (some "me"))
        (select_can_throw (showing defending) (some "me"))
    × Excludes
        (select_can_defend (showing defending) (some "me"))
        (select_can_throw (showing defending) (some "me"))
    × Excludes
        (select_can_translate (showing defending) (some "me"))
        (select_can_throw (showing defending) (some "me"))
actions_exclusive_example = actions_exclusive (showing defending) (some "me") defending refl refl

select_ordered_seats-first_example :
    (s : Seat) × (rest : List Seat) × (select_ordered_seats (showing defending) (some "me")
      ≡ s ∷ rest)
    × (s.id ≡ "me")
unfolding seats_of
select_ordered_seats-first_example =
    select_ordered_seats-first (showing defending) "me" defending refl refl (differ "me" "" refl)
      refl
