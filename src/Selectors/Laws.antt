-- ===== src/Selectors/Laws.antt =====
-- How the selectors agree with each other.
use durak_card_game.Prelude.{
  String, ◌≡◌, ◌≢◌, inl, inr, Bool, true, false, ◌&&◌, Option, none, some, arith, Option-cases,
}
use durak_card_game.Match.{MatchState}
use durak_card_game.Store.{GameState}
use durak_card_game.Selectors.{
  playing, select_current_phase, select_is_my_turn, select_is_attacker, select_is_defender,
  select_can_attack, select_can_defend, select_can_throw, select_can_shuler_play, select_can_take,
  select_can_pass, select_can_translate, select_can_shuler_report, select_can_act,
}

-- Outside the playing phase a player can do nothing, whatever the server's affordances say.
pub idle_outside_play :
    (state : GameState) (user : Option String)
    → select_current_phase state ≢ some playing
    → (select_is_my_turn state user ≡ false)
      × (select_can_attack state user ≡ false)
      × (select_can_defend state user ≡ false)
      × (select_can_throw state user ≡ false)
      × (select_can_shuler_play state user ≡ false)
      × (select_can_take state user ≡ false)
      × (select_can_pass state user ≡ false)
      × (select_can_translate state user ≡ false)
      × (select_can_shuler_report state user ≡ false)
      × (select_can_act state user ≡ false)
unfolding select_is_my_turn select_can_attack select_can_defend select_can_throw
    select_can_shuler_play select_can_take select_can_pass select_can_translate
    select_can_shuler_report select_can_act
idle_outside_play state user h = elim (Option-cases state.match_state) [
  | inl e ↦ ground arith
  | inr (ms, e) ↦ ground arith
]

roles_exclusive :
    (state : GameState) (user : Option String)
    → select_is_attacker state user ≡ true
    → select_is_defender state user ≡ false
unfolding select_is_attacker select_is_defender
roles_exclusive state user h = elim (Option-cases state.match_state) [
  | inl e ↦ ground arith
  | inr (ms, e) ↦ ground arith
]

module _ (state : GameState) (user : Option String) where
  attack-attacker :
      (ms : MatchState)
      → state.match_state ≡ some ms
      → ms.affordances ≡ none
      → select_can_attack state user ≡ true
      → select_is_attacker state user ≡ true
  unfolding select_can_attack
  attack-attacker ms there quiet h = ground arith

  defend-defender :
      (ms : MatchState)
      → state.match_state ≡ some ms
      → ms.affordances ≡ none
      → select_can_defend state user ≡ true
      → select_is_defender state user ≡ true
  unfolding select_can_defend
  defend-defender ms there quiet h = ground arith

  attacker-my_turn : select_is_attacker state user ≡ true → select_is_my_turn state user ≡ true
  unfolding select_is_attacker
  attacker-my_turn h = elim (Option-cases state.match_state) [
    | inl e ↦ ground arith
    | inr (ms, e) ↦ ground arith
  ]

  throw-off_turn :
      (ms : MatchState)
      → state.match_state ≡ some ms
      → ms.affordances ≡ none
      → select_can_throw state user ≡ true
      → (select_is_my_turn state user ≡ false) × (select_is_defender state user ≡ false)
  unfolding select_can_throw select_is_defender
  throw-off_turn ms there quiet h = ground arith

  translate-defend :
      (ms : MatchState)
      → state.match_state ≡ some ms
      → ms.affordances ≡ none
      → select_can_translate state user ≡ true
      → select_can_defend state user ≡ true
  unfolding select_can_translate
  translate-defend ms there quiet h = ground arith

-- `a` and `b` are never both true.
abbrev pub Excludes : Bool → Bool → Type 0
Excludes a b = (a && b) ≡ false

-- Where the server sent no affordances, attacking, defending and throwing in exclude each other, and
-- translating an attack and throwing in do too.
pub actions_exclusive :
    (state : GameState) (user : Option String) (ms : MatchState)
    → state.match_state ≡ some ms
    → ms.affordances ≡ none
    → Excludes (select_can_attack state user) (select_can_defend state user)
      × Excludes (select_can_attack state user) (select_can_throw state user)
      × Excludes (select_can_defend state user) (select_can_throw state user)
      × Excludes (select_can_translate state user) (select_can_throw state user)
actions_exclusive state user ms there quiet = ground (
  arith,
  attack-attacker state user ms there quiet,
  defend-defender state user ms there quiet,
  attacker-my_turn state user,
  roles_exclusive state user,
  throw-off_turn state user ms there quiet,
  translate-defend state user ms there quiet,
)
