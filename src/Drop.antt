-- ===== src/Drop.antt =====
-- Dropping a card on the table: src/features/game/interaction (zones.ts, validation.ts and
-- interaction.engine.ts). Screen coordinates are floating-point numbers; they are a parameter, with
-- the order and the two shifts by a fixed radius that the code computes.
pub mod Laws
use durak_card_game.Prelude.{
  String, ◌≡◌, Bool, true, false, not, ◌&&◌, ◌||◌, Option, none, some, is_some, if◌then◌else◌,
}
use durak_card_game.Card.{Card}
use durak_card_game.Match.{MatchState}
use durak_card_game.Play.{PlayAction, Verdict, can_play_card}

-- `x <= y`, `x - 30` and `x + 30` on the numbers of the screen: a total preorder in which a shift
-- never moves a number the wrong way, and keeps the order.
pub record Coord : Type 1 where
  pub Number : Type 0
  pub le : Number → Number → Bool
  pub minus_snap : Number → Number
  pub plus_snap : Number → Number
  pub le_trans : (x y z : Number) → le x y ≡ true → le y z ≡ true → le x z ≡ true
  pub minus_snap-le : (x : Number) → le (minus_snap x) x ≡ true
  pub le-plus_snap : (x : Number) → le x (plus_snap x) ≡ true
  pub minus_snap_mono : (x y : Number) → le x y ≡ true → le (minus_snap x) (minus_snap y) ≡ true
  pub plus_snap_mono : (x y : Number) → le x y ≡ true → le (plus_snap x) (plus_snap y) ≡ true

pub data DropZone : Type 0 where
  table avatar_take hand : DropZone

pub data DropResult : Type 0 where
  accept : PlayAction → String → DropResult
  reject : String → DropResult
  reject_silent : DropResult

-- `ValidationResult`
pub data Validation : Type 0 where
  valid : PlayAction → Validation
  invalid : Validation

abbrev pub is_table : DropZone → Bool
is_table table = true
is_table _ = false

unfoldable pub as_validation : Verdict → Validation
as_validation v =
    if not v.valid then invalid else elim v.action [ none ↦ invalid | some a ↦ valid a ]

unfoldable pub is_valid_move :
    Card → Option DropZone → Option MatchState → Option String → Validation
unfolding as_validation
is_valid_move card none state user = invalid
is_valid_move card (some zone) state user =
    if not (is_table zone) then invalid else as_validation (can_play_card card state user)

module _ (c : Coord) where
  open c use {Number, le, minus_snap, plus_snap}

  pub record Point : Type 0 where
    pub x : Number
    pub y : Number

  pub record TableRect : Type 0 where
    pub left : Number
    pub top : Number
    pub right : Number
    pub bottom : Number

  unfoldable pub in_snap_range : Point → TableRect → Bool
  in_snap_range p r =
      le (minus_snap r.left) p.x
      && (le p.x (plus_snap r.right) && (le (minus_snap r.top) p.y && le p.y (plus_snap r.bottom)))

  unfoldable pub detect_zone : Point → Option TableRect → Option DropZone
  detect_zone point none = none
  detect_zone point (some rect) = if in_snap_range point rect then some table else none

  -- `ValidateDropContext`
  pub record DropContext : Type 0 where
    pub card : Card
    pub position : Point
    pub table_rect : Option TableRect
    pub match_state : Option MatchState
    pub current_user_id : Option String
    pub interaction_locked : Bool

  unfoldable pub validate_card_drop : DropContext → DropResult
  validate_card_drop ctx =
      if ctx.interaction_locked
      then reject_silent
      else elim (is_valid_move ctx.card (detect_zone ctx.position ctx.table_rect) ctx.match_state
          ctx.current_user_id) [ invalid ↦ reject ctx.card.id | valid a ↦ accept a ctx.card.id ]
