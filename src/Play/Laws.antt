-- ===== src/Play/Laws.antt =====
-- `canPlayCard` against the rules.
use durak_card_game.Prelude.{
  is_some, Option, String, ◌≡◌, refl, ◌≢◌, ◌↔◌, ◌⊎◌, inl, inr, true, false, none, some, eq_iff,
  arith, length, last?, filter, Option-cases,
}
use durak_card_game.Card.{Card, card_beats}
use durak_card_game.Card.Order.{Beats, card_beats-Beats_iff}
use durak_card_game.Match.{Phase, Affordances, Pile, MatchState}
use durak_card_game.Play.{
  Verdict, answer_last, PlayAction, attack, defend, throw, shuler_play, allow, piles_of,
  answer_last, play_by_affordances, play_defend, play_throw, play_attack, play_by_rules,
  is_play_phase, play_at, can_play_card,
}
use durak_card_game.Play.Rules.{
  OffTurn, trump_of, Listed, MayDefend, MayShuler, MayThrow, MayAttack, Ruled, CanPlay,
}
use durak_card_game.Play.Branches.{
  defender_iff, is_shuler_iff, is_other_turn-eq-false_iff, is_other_turn-eq-true_iff,
  is_table_full-eq-false_iff, is_open, LastOpen-iff, any-has_rank_iff,
}

module _ (card : Card) (s : MatchState) (me : String) where
  by_affordances_iff :
      (p : Phase) (aff : Affordances) (a : PlayAction)
      → is_play_phase p ≡ true
      → (play_by_affordances card s me p aff ≡ allow a) ↔ Listed card s me p aff a
  unfolding play_by_affordances
  by_affordances_iff p aff a h = ground (
    arith,
    is_other_turn-eq-false_iff s.turn_player_id me,
    is_other_turn-eq-true_iff s.turn_player_id me,
  )

  play_attack_iff : (play_attack card s me ≡ allow attack) ↔ MayAttack card s me
  unfolding play_attack
  play_attack_iff = ground (
    arith,
    is_other_turn-eq-false_iff s.turn_player_id me,
    is_table_full-eq-false_iff s.capacity_on_table (length (piles_of s)),
  )

  play_throw_iff :
      OffTurn s.turn_player_id me → (play_throw card s me ≡ allow throw) ↔ MayThrow card s me
  unfolding play_throw
  play_throw_iff off = ground (
    arith,
    defender_iff s.defender_player_id me,
    is_table_full-eq-false_iff s.capacity_on_table (length (piles_of s)),
    any-has_rank_iff card.rank (piles_of s),
  )

  not_beaten :
      (t : Pile)
      → (¬ Beats t.attack card (trump_of s))
      → card_beats t.attack card (trump_of s) ≡ false
  not_beaten t h = ground (arith, card_beats-Beats_iff t.attack card (trump_of s), h)

  play_defend_iff : (play_defend card s me ≡ allow defend) ↔ MayDefend card s me
  unfolding play_defend answer_last
  play_defend_iff = (
    λ h. elim (Option-cases (last? (filter is_open (piles_of s)))) [
      | inl e ↦ absurd (ground arith)
      | inr (t, e) ↦ (
        t,
        (LastOpen-iff (piles_of s) t).0 e,
        (is_other_turn-eq-false_iff s.turn_player_id me).0 (ground arith),
        (card_beats-Beats_iff t.attack card (trump_of s)).0 (ground arith),
      )
    ],
    λ (t, last, on, beats). ground (
      arith,
      (is_other_turn-eq-false_iff s.turn_player_id me).1 on,
      (LastOpen-iff (piles_of s) t).1 last,
      (card_beats-Beats_iff t.attack card (trump_of s)).1 beats,
    ),
  )

  play_shuler_iff : (play_defend card s me ≡ allow shuler_play) ↔ MayShuler card s me
  unfolding play_defend answer_last
  play_shuler_iff = (
    λ h. elim (Option-cases (last? (filter is_open (piles_of s)))) [
      | inl e ↦ absurd (ground arith)
      | inr (t, e) ↦ (
        t,
        (LastOpen-iff (piles_of s) t).0 e,
        (is_other_turn-eq-false_iff s.turn_player_id me).0 (ground arith),
        λ b. absurd (ground (arith, (card_beats-Beats_iff t.attack card (trump_of s)).1 b)),
        (is_shuler_iff s.shuler me).0 (ground arith),
      )
    ],
    λ (t, last, on, beats, shuler). ground (
      arith,
      (is_other_turn-eq-false_iff s.turn_player_id me).1 on,
      (LastOpen-iff (piles_of s) t).1 last,
      not_beaten t beats,
      (is_shuler_iff s.shuler me).1 shuler,
    ),
  )

  play_throw_only : (a : PlayAction) → play_throw card s me ≡ allow a → a ≡ throw
  unfolding play_throw
  play_throw_only a h = ground arith

  play_attack_only : (a : PlayAction) → play_attack card s me ≡ allow a → a ≡ attack
  unfolding play_attack
  play_attack_only a h = ground arith

  play_defend_only :
      (a : PlayAction) → play_defend card s me ≡ allow a → (a ≡ defend) ⊎ (a ≡ shuler_play)
  unfolding play_defend answer_last
  play_defend_only a h = ground (arith, Option-cases (last? (filter is_open (piles_of s))))

  by_rules_iff :
      (p : Phase) (a : PlayAction)
      → is_play_phase p ≡ true
      → (play_by_rules card s me p ≡ allow a) ↔ Ruled card s me p a
  unfolding play_by_rules
  by_rules_iff Phase.defend a h =
      ground (arith, play_defend_only a, play_defend_iff, play_shuler_iff)
  by_rules_iff Phase.attack a h = ground (
    arith,
    play_throw_only a,
    play_attack_only a,
    play_throw_iff,
    play_attack_iff,
    is_other_turn-eq-false_iff s.turn_player_id me,
    is_other_turn-eq-true_iff s.turn_player_id me,
  )
  by_rules_iff Phase.playing a h = ground (arith, play_attack_only a, play_attack_iff)
  by_rules_iff _ a h = ground arith

  Listed-phase :
      (p : Phase) (aff : Affordances) (a : PlayAction)
      → Listed card s me p aff a
      → is_play_phase p ≡ true
  Listed-phase Phase.playing aff a l = refl
  Listed-phase _ aff a l = ground arith

  Ruled-phase : (p : Phase) (a : PlayAction) → Ruled card s me p a → is_play_phase p ≡ true
  Ruled-phase Phase.playing a l = refl
  Ruled-phase _ a l = ground arith

  Listed-back :
      (p : Phase) (aff : Affordances) (a : PlayAction)
      → s.affordances ≡ some aff
      → Listed card s me p aff a
      → play_at card s me p ≡ allow a
  unfolding play_at
  Listed-back p aff a e l =
      let h = Listed-phase p aff a l in rw (h, e) ((by_affordances_iff p aff a h).1 l)

  Ruled-back :
      (p : Phase) (a : PlayAction)
      → s.affordances ≡ none
      → Ruled card s me p a
      → play_at card s me p ≡ allow a
  unfolding play_at
  Ruled-back p a e r = let h = Ruled-phase p a r in rw (h, e) ((by_rules_iff p a h).1 r)

  play_at_iff :
      (p : Phase) (a : PlayAction)
      → (play_at card s me p ≡ allow a) ↔ (
          ((aff : Affordances) × (s.affordances ≡ some aff) × Listed card s me p aff a)
          ⊎ ((s.affordances ≡ none) × Ruled card s me p a))
  unfolding play_at
  play_at_iff p a = elim (Option-cases s.affordances) [
    | inl e ↦ (
      λ h. inr (e, (by_rules_iff p a (ground arith)).0 (ground arith)),
      elim [ inl (aff, q, l) ↦ absurd (ground arith) | inr (q, r) ↦ Ruled-back p a e r ],
    )
    | inr (aff, e) ↦ (
      λ h. inl (aff, e, (by_affordances_iff p aff a (ground arith)).0 (ground arith)),
      elim [ inl (aff', q, l) ↦ Listed-back p aff' a q l | inr (q, r) ↦ absurd (ground arith) ],
    )
  ]

-- A user who is known may play a card, with an action, exactly when the rules say so: by the
-- server's lists where it sent affordances, and else by whose turn it is and what the card shows.
pub can_play_card-CanPlay_iff :
    (card : Card) (s : MatchState) (me : String) (a : PlayAction)
    → me ≢ ""
    → (can_play_card card (some s) (some me) ≡ allow a) ↔ CanPlay card s me a
unfolding can_play_card
can_play_card-CanPlay_iff card s me a known = elim (Option-cases s.phase) [
  | inl e ↦ ground (arith, eq_iff me "")
  | inr (p, e) ↦ ground (arith, eq_iff me "", play_at_iff card s me p a)
]

abbrev pub IsConsistent : Verdict → Type 0
IsConsistent v = v.valid ≡ is_some v.action

play_by_rules-IsConsistent :
    (card : Card) (s : MatchState) (me : String) (p : Phase)
    → IsConsistent (play_by_rules card s me p)
unfolding play_by_rules play_defend answer_last play_throw play_attack
play_by_rules-IsConsistent card s me p =
    ground (arith, Option-cases (last? (filter is_open (piles_of s))))

play_at-IsConsistent :
    (card : Card) (s : MatchState) (me : String) (p : Phase) → IsConsistent (play_at card s me p)
unfolding play_at play_by_affordances
play_at-IsConsistent card s me p = ground (arith, play_by_rules-IsConsistent card s me p)

-- A verdict has an action exactly if it is valid.
pub can_play_card-IsConsistent :
    (card : Card) (state : Option MatchState) (user : Option String)
    → IsConsistent (can_play_card card state user)
unfolding can_play_card
can_play_card-IsConsistent card (some s) (some me) = elim (Option-cases s.phase) [
  | inl e ↦ ground arith
  | inr (p, e) ↦ ground (arith, play_at-IsConsistent card s me p)
]
can_play_card-IsConsistent card _ _ = ground arith
