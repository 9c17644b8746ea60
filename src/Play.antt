-- ===== src/Play.antt =====
-- The local check of a card before it is sent: src/entities/game/lib/canPlayCard.ts.
pub mod Rules
pub mod Branches
pub mod Laws
use durak_card_game.Prelude.{
  ℕ, String, Bool, true, false, not, ◌&&◌, ◌||◌, Option, none, some, List, [], ◌∷◌, ◌==◌, ltb, leb,
  length, last?, is_empty, any, filter, includes, truthy, same_text, or_else, get_or, is_some,
  if◌then◌else◌,
}
use durak_card_game.Card.{Card, card_beats}
use durak_card_game.Match.{Phase, Affordances, Pile, Shuler, MatchState}

pub data PlayAction : Type 0 where
  attack defend throw shuler_play : PlayAction

-- `{ valid: boolean; action?: … }`
pub record Verdict : Type 0 where
  pub valid : Bool
  pub action : Option PlayAction

abbrev pub refuse : Verdict
refuse = record { valid = false; action = none }

abbrev pub allow : PlayAction → Verdict
allow a = record { valid = true; action = some a }

unfoldable pub get_defense_card : Pile → Option Card
get_defense_card pile = or_else pile.defend pile.defense

unfoldable pub includes_card : Option (List String) → String → Bool
includes_card none card_id = false
includes_card (some ids) card_id = includes ids card_id

-- `buildTablePilesFromLegacy`: the cards in pairs of an attack and its answer
unfoldable pub build_table_piles_from_legacy : List Card → List Pile
build_table_piles_from_legacy [] = []
build_table_piles_from_legacy (a ∷ []) = record { attack = a; defend = none; defense = none } ∷ []
build_table_piles_from_legacy (a ∷ d ∷ cards) =
    record { attack = a; defend = some d; defense = none } ∷ build_table_piles_from_legacy cards

-- `state.tablePiles ?? buildTablePilesFromLegacy(state.tableCards ?? [])`
unfoldable pub piles_of : MatchState → List Pile
piles_of s = elim s.table_piles [
  | some piles ↦ piles
  | none ↦ build_table_piles_from_legacy (get_or s.table_cards [])
]

-- `state.turnPlayerId && state.turnPlayerId !== currentUserId`
unfoldable pub is_other_turn : Option String → String → Bool
is_other_turn turn_player_id me = truthy turn_player_id && not (same_text turn_player_id me)

-- `typeof capacity === "number" && capacity > 0` and the table holds that many piles
unfoldable pub is_table_full : Option ℕ → ℕ → Bool
is_table_full none count = false
is_table_full (some capacity) count = ltb 0 capacity && leb capacity count

-- The branch of the server's affordances.
unfoldable pub play_by_affordances : Card → MatchState → String → Phase → Affordances → Verdict
play_by_affordances card s me Phase.defend aff =
    if includes_card aff.defend_card_ids card.id
    then allow defend
    else if includes_card aff.shuler_play_card_ids card.id
    then allow shuler_play
    else refuse
play_by_affordances card s me _ aff =
    if is_other_turn s.turn_player_id me
    then (if includes_card aff.throw_in_card_ids card.id then allow throw else refuse)
    else if includes_card aff.attack_card_ids card.id
    then allow attack
    else refuse

-- `(state.shuler?.activePlayers ?? []).includes(me)`
unfoldable pub is_shuler : Option Shuler → String → Bool
is_shuler none me = false
is_shuler (some shuler) me = includes shuler.active_players me

-- `pile.attack` of the last open pile, against the card
unfoldable pub answer_last : Card → MatchState → String → Option Pile → Verdict
answer_last card s me none = refuse
answer_last card s me (some target) =
    if card_beats target.attack card (get_or s.trump_suit "")
    then allow defend
    else if is_shuler s.shuler me
    then allow shuler_play
    else refuse

-- "Defender logic."
unfoldable pub play_defend : Card → MatchState → String → Verdict
play_defend card s me =
    if is_other_turn s.turn_player_id me
    then refuse
    else answer_last card s me
        (last? (filter (λ p. not (is_some (get_defense_card p))) (piles_of s)))

abbrev pub rank_is : Option Card → String → Bool
rank_is none rank = false
rank_is (some c) rank = c.rank == rank

-- the test of `hasRankOnTable`
unfoldable pub has_rank : String → Pile → Bool
has_rank rank pile = pile.attack.rank == rank || rank_is (get_defense_card pile) rank

-- "Throw-in by non-defender players during attacker phase."
unfoldable pub play_throw : Card → MatchState → String → Verdict
play_throw card s me =
    if truthy s.defender_player_id && same_text s.defender_player_id me
    then refuse
    else if is_table_full s.capacity_on_table (length (piles_of s))
    then refuse
    else if is_empty (piles_of s)
    then refuse
    else if any (has_rank card.rank) (piles_of s)
    then allow throw
    else refuse

-- "Attacker logic."
unfoldable pub play_attack : Card → MatchState → String → Verdict
play_attack card s me =
    if is_other_turn s.turn_player_id me
    then refuse
    else if is_table_full s.capacity_on_table (length (piles_of s))
    then refuse
    else if is_empty (piles_of s)
    then allow attack
    else let ranks = get_or s.allowed_ranks [] in
      if is_empty ranks || includes ranks card.rank then allow attack else refuse

-- The part of `canPlayCard` behind the affordances.
unfoldable pub play_by_rules : Card → MatchState → String → Phase → Verdict
play_by_rules card s me Phase.defend = play_defend card s me
play_by_rules card s me Phase.attack =
    if is_other_turn s.turn_player_id me then play_throw card s me else play_attack card s me
play_by_rules card s me _ = play_attack card s me

abbrev pub is_play_phase : Phase → Bool
is_play_phase Phase.playing = true
is_play_phase Phase.attack = true
is_play_phase Phase.defend = true
is_play_phase _ = false

-- `canPlayCard` for a state and a user that are there, at a phase
unfoldable pub play_at : Card → MatchState → String → Phase → Verdict
play_at card s me phase =
    if is_play_phase phase
    then elim s.affordances [
      | some aff ↦ play_by_affordances card s me phase aff
      | none ↦ play_by_rules card s me phase
    ]
    else refuse

unfoldable pub can_play_card : Card → Option MatchState → Option String → Verdict
can_play_card card none user = refuse
can_play_card card (some s) none = refuse
can_play_card card (some s) (some me) =
    if me == ""
    then refuse
    else elim s.phase [ none ↦ refuse | some phase ↦ play_at card s me phase ]
