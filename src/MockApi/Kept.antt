-- ===== src/MockApi/Kept.antt =====
-- The cards of the mock's matches, over any sequence of its calls.
use mathlib.Core.List.{Perm, perm_append_comm, perm_middle, append_assoc, append-nil}
use mathlib.Core.List.Perm as Reorder
use mathlib.Core.Path.{subst}
use durak_card_game.Prelude.{
  ℕ, ◌+◌, String, ◌≡◌, refl, sym, ap, ◌∙◌, Bool, true, false, ◌==◌, Option, none, some, List, [],
  ◌∷◌, ◌++◌, ◌⊎◌, inl, inr, arith, eq_iff, length, any, eqb, is_empty, truthy, get_or, All,
  Bool-cases, Option-cases, if◌then◌else◌,
}
use durak_card_game.Card.{Card}
use durak_card_game.Match.{MatchState}
use durak_card_game.MockApi.{
  MockAction, MockAction.attack, MockAction.defend, MockAction.take, MockAction.pass, MockStates,
  MockCall, mock_user_id, mock_opponent_id, create_initial_hand, create_player, initial_match,
  initialize_mock_match, get_state, set_state, splice_card, lay_card, play_card, play_from,
  move_cards, is_pass, opponent_count, other_turn, act_on, apply_mock_match_action, run_mock,
}

-- The match that shows a hand and a table: the user without a card has won, and the opponent has
-- no cards.
abbrev pub position : String → ℕ → String → List Card → List Card → MatchState
position room_id ends turn hand table = record (initial_match 0 room_id) {
  turn_ends_at = some ends;
  turn_player_id = some turn;
  table_cards = some table;
  players =
      some (create_player mock_user_id "Вы" hand ∷ create_player mock_opponent_id "Bot" [] ∷ []);
  winner_player_id = if is_empty hand then some mock_user_id else none;
  status = some (if is_empty hand then "finished" else "playing");
}

-- The match is a position whose cards, with some that are gone, are those that were dealt. Without
-- a pass no card is gone.
pub record IsMatch (passed : Bool) (room_id : String) (state : MatchState) : Type 0 where
  ends : ℕ
  turn : String
  hand : List Card
  table : List Card
  gone : List Card
  on_turn : (turn ≡ mock_user_id) ⊎ (turn ≡ mock_opponent_id)
  shape : state ≡ position room_id ends turn hand table
  whole : Perm ((hand ++ table) ++ gone) create_initial_hand
  kept : passed ≡ false → gone ≡ []

abbrev pub AllMatches : Bool → MockStates → Type 0
AllMatches passed states = All (λ e. IsMatch passed e.0 e.1) states

-- The state that a call returns, and the map after it.
abbrev pub Both : Bool → String → MatchState × MockStates → Type 0
Both p room_id (state, states) = IsMatch p room_id state × AllMatches p states

-- What the search for a card has found, if anything, is a card of the hand and the others.
abbrev Spliced : List Card → Option (Card × List Card) → Type 0
Spliced hand none = Unit
Spliced hand (some (card, rest)) = Perm (card ∷ rest) hand

Spliced-cons :
    (c : Card) (cs : List Card) (o : Option (Card × List Card))
    → Spliced cs o
    → Spliced (c ∷ cs) (elim o [ none ↦ none | some (found, rest) ↦ some (found, c ∷ rest) ])
Spliced-cons c cs none h = tt
Spliced-cons c cs (some (found, rest)) h =
    Reorder.trans (Reorder.swap c found rest) (Reorder.cons c h)

splice_card-Spliced : (id : String) (hand : List Card) → Spliced hand (splice_card id hand)
splice_card-Spliced id [] = tt
splice_card-Spliced id (c ∷ cs) = elim (Bool-cases (c.id == id)) [
  | inl here ↦ rw here (Reorder.refl (c ∷ cs))
  | inr later ↦ rw later (Spliced-cons c cs (splice_card id cs) (splice_card-Spliced id cs))
]

-- The cards of the hand and the table after an action, and those that it takes out of the game.
record Moved (action : MockAction) (hand table : List Card) (res : Option (List Card) × List Card)
    : Type 0 where
  kept : List Card
  laid : List Card
  dropped : List Card
  returned : res ≡ (some kept, laid)
  sum : Perm ((kept ++ laid) ++ dropped) (hand ++ table)
  by_pass : is_pass action ≡ false → dropped ≡ []

Moved-all :
    (action : MockAction) (hand table kept laid : List Card)
    → Perm (kept ++ laid) (hand ++ table)
    → Moved action hand table (some kept, laid)
Moved-all action hand table kept laid h = record {
  kept = kept;
  laid = laid;
  dropped = [];
  returned = refl;
  sum = rw (append-nil (kept ++ laid)) h;
  by_pass = λ _. refl;
}

lay_card-perm :
    (hand table : List Card) (o : Option (Card × List Card))
    → Spliced hand o
    → Perm ((lay_card hand table o).0 ++ (lay_card hand table o).1) (hand ++ table)
lay_card-perm hand table none h = Reorder.refl (hand ++ table)
lay_card-perm hand table (some (card, rest)) h =
    Reorder.trans (Reorder.append_left rest (perm_append_comm table (card ∷ [])))
      (Reorder.trans (perm_middle rest table) (Reorder.append_right table h))

play_card-perm :
    (id : String) (hand table : List Card)
    → Perm ((play_card id hand table).0 ++ (play_card id hand table).1) (hand ++ table)
play_card-perm id hand table =
    lay_card-perm hand table (splice_card id hand) (splice_card-Spliced id hand)

play_from-Moved :
    (action : MockAction) (card_id : Option String) (hand table : List Card)
    → Moved action hand table (play_from card_id (some hand) table)
play_from-Moved action card_id hand table = elim (Bool-cases (truthy card_id)) [
  | inl e ↦ rw e (Moved-all action hand table _ _ (play_card-perm (get_or card_id "") hand table))
  | inr e ↦ rw e (Moved-all action hand table hand table (Reorder.refl (hand ++ table)))
]

move_cards-Moved :
    (action : MockAction) (card_id : Option String) (hand table : List Card)
    → Moved action hand table (move_cards action card_id (some hand) table)
move_cards-Moved attack card_id hand table = play_from-Moved attack card_id hand table
move_cards-Moved defend card_id hand table = play_from-Moved defend card_id hand table
move_cards-Moved take card_id hand table =
    Moved-all take hand table (hand ++ table) []
      (rw (append-nil (hand ++ table)) (Reorder.refl (hand ++ table)))
move_cards-Moved pass card_id hand table = record {
  kept = hand;
  laid = [];
  dropped = table;
  returned = refl;
  sum = rw (append-nil hand) (Reorder.refl (hand ++ table));
  by_pass = λ h. cc;
}

get_state-IsMatch :
    (p : Bool) (room_id : String) (states : MockStates) (state : MatchState)
    → AllMatches p states
    → get_state room_id states ≡ some state
    → IsMatch p room_id state
get_state-IsMatch p room_id [] state h e = cc
get_state-IsMatch p room_id ((key, old) ∷ rest) state (first, others) e =
    elim (Bool-cases (key == room_id)) [
      | inl here ↦
          subst (IsMatch p room_id) (ground arith)
            (subst (λ r. IsMatch p r old) ((eq_iff key room_id).0 here) first)
      | inr later ↦ get_state-IsMatch p room_id rest state others (ground arith)
    ]

set_state-AllMatches :
    (p : Bool) (room_id : String) (state : MatchState) (states : MockStates)
    → IsMatch p room_id state
    → AllMatches p states
    → AllMatches p (set_state room_id state states)
set_state-AllMatches p room_id state [] h k = (h, tt)
set_state-AllMatches p room_id state ((key, old) ∷ rest) h (first, others) =
    elim (Bool-cases (key == room_id)) [
      | inl here ↦ rw here (h, others)
      | inr later ↦ rw later (first, set_state-AllMatches p room_id state rest h others)
    ]

initial_match-IsMatch :
    (p : Bool) (now : ℕ) (room_id : String) → IsMatch p room_id (initial_match now room_id)
initial_match-IsMatch p now room_id = record {
  ends = now + 35000;
  turn = mock_user_id;
  hand = create_initial_hand;
  table = [];
  gone = [];
  on_turn = inl refl;
  shape = refl;
  whole = Reorder.refl create_initial_hand;
  kept = λ _. refl;
}

opponent_count-zero : (action : MockAction) → opponent_count action (some 0) ≡ some 0
opponent_count-zero attack = refl
opponent_count-zero defend = refl
opponent_count-zero take = refl
opponent_count-zero pass = refl

eqb-length : (cards : List Card) → eqb (length cards) 0 ≡ is_empty cards
eqb-length [] = refl
eqb-length (c ∷ cards) = ground arith

-- An action on a position leads to a position, and to no other state.
act_on-position :
    (now : ℕ) (room_id : String) (action : MockAction) (card_id : Option String) (ends : ℕ)
    (turn : String) (hand table kept laid : List Card) (states : MockStates)
    → move_cards action card_id (some hand) table ≡ (some kept, laid)
    → act_on now room_id action card_id (position room_id ends turn hand table, states) ≡ (
      position room_id (now + 30000) (other_turn (some turn)) kept laid,
      set_state room_id (position room_id (now + 30000) (other_turn (some turn)) kept laid) states,
    )
unfolding act_on
act_on-position now room_id action card_id ends turn hand table kept laid states e =
    rw (e, opponent_count-zero action, eqb-length kept) refl

other_turn-cases :
    (turn : String)
    → (other_turn (some turn) ≡ mock_user_id) ⊎ (other_turn (some turn) ≡ mock_opponent_id)
other_turn-cases turn = elim (Bool-cases (turn == mock_user_id)) [
  | inl e ↦ rw e (inr refl)
  | inr e ↦ rw e (inl refl)
]

gone_nothing :
    (p : Bool) (action : MockAction) (dropped gone : List Card)
    → (is_pass action ≡ true → p ≡ true)
    → (is_pass action ≡ false → dropped ≡ [])
    → (p ≡ false → gone ≡ [])
    → p ≡ false
    → dropped ++ gone ≡ []
gone_nothing p action dropped gone passes by_pass kept none_passed =
    elim (Bool-cases (is_pass action)) [
      | inl e ↦ ground (arith, passes e)
      | inr e ↦ rw (by_pass e, kept none_passed) refl
    ]

-- The position after an action has the cards of the one before.
Moved-IsMatch :
    (p : Bool) (now : ℕ) (room_id : String) (action : MockAction) {state : MatchState}
    {res : Option (List Card) × List Card} (m : IsMatch p room_id state)
    (v : Moved action m.hand m.table res)
    → (is_pass action ≡ true → p ≡ true)
    → IsMatch p room_id (position room_id (now + 30000) (other_turn (some m.turn)) v.kept v.laid)
Moved-IsMatch p now room_id action m v passes = record {
  ends = now + 30000;
  turn = other_turn (some m.turn);
  hand = v.kept;
  table = v.laid;
  gone = v.dropped ++ m.gone;
  on_turn = other_turn-cases m.turn;
  shape = refl;
  whole =
      subst (λ xs. Perm xs create_initial_hand) (append_assoc (v.kept ++ v.laid) v.dropped m.gone)
        (Reorder.trans (Reorder.append_right m.gone v.sum) m.whole);
  kept = gone_nothing p action v.dropped m.gone passes v.by_pass m.kept;
}

act_on-AllMatches :
    (p : Bool) (now : ℕ) (room_id : String) (action : MockAction) (card_id : Option String)
    (state : MatchState) (states : MockStates)
    → (is_pass action ≡ true → p ≡ true)
    → IsMatch p room_id state
    → AllMatches p states
    → Both p room_id (act_on now room_id action card_id (state, states))
act_on-AllMatches p now room_id action card_id state states passes m h =
    let v = move_cards-Moved action card_id m.hand m.table in
    let e =
      ap (λ s. act_on now room_id action card_id (s, states)) m.shape
      ∙ act_on-position now room_id action card_id m.ends m.turn m.hand m.table v.kept v.laid states
          v.returned in
    let after = Moved-IsMatch p now room_id action m v passes in
    subst (Both p room_id) (sym e) (after, set_state-AllMatches p room_id _ states after h)

pub initialize-IsMatch :
    (p : Bool) (now : ℕ) (room_id : String) (states : MockStates)
    → AllMatches p states
    → Both p room_id (initialize_mock_match now room_id states)
unfolding initialize_mock_match
initialize-IsMatch p now room_id states h = elim (Option-cases (get_state room_id states)) [
  | inl new ↦
      let m = initial_match-IsMatch p now room_id in
      rw (new, initialize_mock_match)
        (m, set_state-AllMatches p room_id (initial_match now room_id) states m h)
  | inr (old, there) ↦
      rw (there, initialize_mock_match) (get_state-IsMatch p room_id states old h there, h)
]

pub apply-AllMatches :
    (p : Bool) (now : ℕ) (room_id : String) (action : MockAction) (card_id : Option String)
    (states : MockStates)
    → (is_pass action ≡ true → p ≡ true)
    → AllMatches p states
    → Both p room_id (apply_mock_match_action now room_id action card_id states)
unfolding apply_mock_match_action
apply-AllMatches p now room_id action card_id states passes h =
    let (m, k) = initialize-IsMatch p now room_id states h in
    act_on-AllMatches p now room_id action card_id (initialize_mock_match now room_id states).0
      (initialize_mock_match now room_id states).1 passes m k

run_mock-AllMatches :
    (p : Bool) (calls : List MockCall) (states : MockStates)
    → (any (λ c. is_pass c.action) calls ≡ true → p ≡ true)
    → AllMatches p states
    → AllMatches p (run_mock calls states)
run_mock-AllMatches p [] states passes h = h
run_mock-AllMatches p (c ∷ calls) states passes h =
    run_mock-AllMatches p calls _ (λ e. passes (ground arith))
      (apply-AllMatches p c.now c.room_id c.action c.card_id states (λ e. passes (ground arith))
        h).1

-- After any calls from an empty map, in any rooms, each match shows a hand, a table, who is on
-- turn and whether the user has won, such that the hand and the table, with the cards that are
-- gone, are the six cards dealt, each as often. If no call passes, no card is gone.
pub run_mock-kept :
    (calls : List MockCall) → AllMatches (any (λ c. is_pass c.action) calls) (run_mock calls [])
run_mock-kept calls = run_mock-AllMatches (any (λ c. is_pass c.action) calls) calls [] (λ e. e) tt
