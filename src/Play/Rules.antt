-- ===== src/Play/Rules.antt =====
-- The moves that the client lets through, said without the code's order of tests: whose turn it is,
-- what lies open on the table, and what a card must show.
use durak_card_game.Prelude.{
  ℕ, ◌<◌, String, ◌≡◌, ◌≢◌, ◌⊎◌, true, false, Option, none, some, List, [], ◌∷◌, All, length,
  includes, get_or,
}
use durak_card_game.Card.{Card}
use durak_card_game.Card.Order.{Beats}
use durak_card_game.Match.{Phase, Affordances, Pile, Shuler, MatchState}
use durak_card_game.Play.{
  PlayAction, attack, defend, throw, shuler_play, get_defense_card, includes_card, piles_of,
}

-- The turn is nobody's in particular, or the player's.
abbrev pub OnTurn : Option String → String → Type 0
OnTurn none me = Unit
OnTurn (some turn) me = (turn ≡ "") ⊎ (turn ≡ me)

abbrev pub OffTurn : Option String → String → Type 0
OffTurn none me = ⊥
OffTurn (some turn) me = (turn ≢ "") × (turn ≢ me)

-- The defender is unknown, or someone else.
abbrev pub NotDefender : Option String → String → Type 0
NotDefender none me = Unit
NotDefender (some defender) me = (defender ≡ "") ⊎ (defender ≢ me)

-- A stated positive capacity is not yet reached.
abbrev pub HasRoom : Option ℕ → ℕ → Type 0
HasRoom none count = Unit
HasRoom (some capacity) count = 0 < capacity → count < capacity

abbrev pub IsOpen : Pile → Type 0
IsOpen p = get_defense_card p ≡ none

abbrev pub IsAnswered : Pile → Type 0
IsAnswered p = get_defense_card p ≢ none

-- `target` is open, and every pile after it is answered.
abbrev pub LastOpen : List Pile → Pile → Type 0
LastOpen [] target = ⊥
LastOpen (p ∷ piles) target =
    ((p ≡ target) × IsOpen p × All IsAnswered piles) ⊎ LastOpen piles target

abbrev pub ShowsRank : String → Pile → Type 0
ShowsRank rank p =
    (p.attack.rank ≡ rank) ⊎ ((c : Card) × (get_defense_card p ≡ some c) × (c.rank ≡ rank))

abbrev pub Any {ℓ} : {A : Type ℓ} → (A → Type 0) → List A → Type 0
Any P [] = ⊥
Any P (x ∷ xs) = P x ⊎ Any P xs

abbrev pub trump_of : MatchState → String
trump_of s = get_or s.trump_suit ""

abbrev pub IsShuler : Option Shuler → String → Type 0
IsShuler none me = ⊥
IsShuler (some shuler) me = includes shuler.active_players me ≡ true

-- The card is on the server's list for the action.
abbrev pub Listed : Card → MatchState → String → Phase → Affordances → PlayAction → Type 0
Listed card s me Phase.defend aff defend = includes_card aff.defend_card_ids card.id ≡ true
Listed card s me Phase.defend aff shuler_play =
    (includes_card aff.defend_card_ids card.id ≡ false)
    × (includes_card aff.shuler_play_card_ids card.id ≡ true)
Listed card s me Phase.attack aff throw =
    OffTurn s.turn_player_id me × (includes_card aff.throw_in_card_ids card.id ≡ true)
Listed card s me Phase.attack aff attack =
    OnTurn s.turn_player_id me × (includes_card aff.attack_card_ids card.id ≡ true)
Listed card s me Phase.playing aff throw =
    OffTurn s.turn_player_id me × (includes_card aff.throw_in_card_ids card.id ≡ true)
Listed card s me Phase.playing aff attack =
    OnTurn s.turn_player_id me × (includes_card aff.attack_card_ids card.id ≡ true)
Listed _ _ _ _ _ _ = ⊥

abbrev pub MayDefend : Card → MatchState → String → Type 0
MayDefend card s me =
    (target : Pile) × LastOpen (piles_of s) target
    × OnTurn s.turn_player_id me
    × Beats target.attack card (trump_of s)

abbrev pub MayShuler : Card → MatchState → String → Type 0
MayShuler card s me =
    (target : Pile) × LastOpen (piles_of s) target
    × OnTurn s.turn_player_id me
    × (¬ Beats target.attack card (trump_of s))
    × IsShuler s.shuler me

abbrev pub MayThrow : Card → MatchState → String → Type 0
MayThrow card s me =
    OffTurn s.turn_player_id me
    × NotDefender s.defender_player_id me
    × HasRoom s.capacity_on_table (length (piles_of s))
    × Any (ShowsRank card.rank) (piles_of s)

abbrev pub MayAttack : Card → MatchState → String → Type 0
MayAttack card s me =
    OnTurn s.turn_player_id me
    × HasRoom s.capacity_on_table (length (piles_of s))
    × ((piles_of s ≡ [])
        ⊎ ((get_or s.allowed_ranks [] ≡ [])
            ⊎ (includes (get_or s.allowed_ranks []) card.rank ≡ true)))

-- What the rules allow where the server sent no affordances.
abbrev pub Ruled : Card → MatchState → String → Phase → PlayAction → Type 0
Ruled card s me Phase.defend defend = MayDefend card s me
Ruled card s me Phase.defend shuler_play = MayShuler card s me
Ruled card s me Phase.attack throw = MayThrow card s me
Ruled card s me Phase.attack attack = MayAttack card s me
Ruled card s me Phase.playing attack = MayAttack card s me
Ruled _ _ _ _ _ = ⊥

abbrev pub CanPlay : Card → MatchState → String → PlayAction → Type 0
CanPlay card s me a =
    (p : Phase) × (s.phase ≡ some p)
    × (((aff : Affordances) × (s.affordances ≡ some aff) × Listed card s me p aff a)
        ⊎ ((s.affordances ≡ none) × Ruled card s me p a))
