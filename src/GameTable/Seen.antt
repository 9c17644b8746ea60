-- ===== src/GameTable/Seen.antt =====
-- What the page works out for itself, against the selectors and the local check of a card.
use mathlib.Core.Path.{subst}
use durak_card_game.Prelude.{
  String, ◌≡◌, ◌⊎◌, All, refl, ap, sym, ◌∙◌, ◌==◌, Bool, true, false, not, ◌&&◌, ◌||◌, Option, none,
  some, List, [], ◌∷◌, map, arith, truthy, get_or, or_else, lower_includes, includes, Bool-cases,
  inl, inr, if◌then◌else◌,
}
use durak_card_game.Card.{Card}
use durak_card_game.Match.{MatchState, Pile, Affordances, Shuler}
use durak_card_game.Store.{GameState}
use durak_card_game.Play.{get_defense_card, piles_of, build_table_piles_from_legacy}
use durak_card_game.Selectors as Select
use durak_card_game.Selectors.{
  select_can_defend, select_can_translate, select_can_shuler_report, select_current_phase,
  is_playing, while_playing,
}
use durak_card_game.GameTable.{
  Page, affordances_of, can_report_shuler, can_translate, is_translate_mode, mode_text,
  mode_of_room, shuler_window_ends_at, runs, by_affordance, window_open, shuler_window_is_live,
  shuler_players, build_table_pairs, table_pairs, pairs_of, defense_card,
}

-- The words that the page looks for.
abbrev names_translate : String → Bool
names_translate s =
    lower_includes s "perevod" || (lower_includes s "перевод" || lower_includes s "перекид")

or_left : (a b c : Bool) → (a || b) ≡ true → (a || (b || c)) ≡ true
or_left true b c h = refl
or_left false true c h = refl
or_left false false c h = cc h

names_of_select :
    (mode room : Option String)
    → Select.is_translate_mode (get_or mode "") ≡ true
    → names_translate (get_or (or_else mode room) "") ≡ true
unfolding Select.is_translate_mode lower_includes
names_of_select none room h = cc h
names_of_select (some s) room h = or_left (lower_includes s "perevod") _ _ h

shown_inv :
    (o : Option MatchState) (b : Bool) (body : MatchState → Bool)
    → (elim o [ none ↦ false | some ms ↦ if b then body ms else false ]) ≡ true
    → (ms : MatchState) × (o ≡ some ms) × (body ms ≡ true)
shown_inv none b body h = cc h
shown_inv (some ms) true body h = (ms, refl, h)
shown_inv (some ms) false body h = cc h

-- A selector that answers yes does so for the state that is there.
while_playing-shown :
    (g : GameState) (body : MatchState → Bool)
    → while_playing g body ≡ true
    → (ms : MatchState) × (g.match_state ≡ some ms) × (body ms ≡ true)
while_playing-shown g body h = shown_inv g.match_state (is_playing (select_current_phase g)) body h

by_affordance-of :
    (o : Option Affordances) (allowed : Affordances → Bool) (x y : Bool)
    → (x ≡ true → y ≡ true)
    → Select.by_affordance o allowed x ≡ true
    → by_affordance o allowed y ≡ true
by_affordance-of none allowed x y f h = f h
by_affordance-of (some a) allowed x y f h = h

both :
    (a b a' b' : Bool)
    → (a ≡ true → a' ≡ true)
    → (b ≡ true → b' ≡ true)
    → (a && b) ≡ true
    → (b' && a') ≡ true
both true true a' b' f k h = ground (arith, f refl, k refl)
both true false a' b' f k h = cc h
both false b a' b' f k h = cc h

module _ (p : Page) (g : GameState) (ms : MatchState) (there : g.match_state ≡ some ms) where
  affordances_at : affordances_of g ≡ ms.affordances
  affordances_at = rw there refl

  mode_at : mode_text p g ≡ get_or (or_else ms.mode (mode_of_room p.room)) ""
  mode_at = rw there refl

  translate_at : Select.is_translate_mode (get_or ms.mode "") ≡ true → is_translate_mode p g ≡ true
  unfolding is_translate_mode
  translate_at h = ap names_translate mode_at ∙ names_of_select ms.mode (mode_of_room p.room) h

  by_affordance-at :
      (allowed : Affordances → Bool) (x y : Bool)
      → (x ≡ true → y ≡ true)
      → Select.by_affordance ms.affordances allowed x ≡ true
      → by_affordance (affordances_of g) allowed y ≡ true
  by_affordance-at allowed x y f h =
      subst (λ o. by_affordance o allowed y ≡ true) (sym affordances_at)
        (by_affordance-of ms.affordances allowed x y f h)

-- Where the selector lets the player translate, the page does so too.
pub can_translate-of_select :
    (p : Page) (g : GameState)
    → select_can_translate g p.current_user_id ≡ true
    → can_translate p g ≡ true
unfolding select_can_translate can_translate
can_translate-of_select p g h =
    let (ms, there, said) = while_playing-shown g _ h in
    by_affordance-at p g ms there (λ a. a.can_translate) _ _
      (both _ _ _ _ (translate_at p g ms there) (λ able. able)) said

with_user-known :
    (user : Option String) (body : String → Bool)
    → Select.with_user user body ≡ true
    → (me : String) × (user ≡ some me) × ((me == "") ≡ false) × (body me ≡ true)
with_user-known none body h = cc h
with_user-known (some me) body h = elim (Bool-cases (me == "")) [
  | inl e ↦ absurd (stuck e)
  | inr e ↦ (me, refl, e, rw e at h)
]
  where
    stuck : (me == "") ≡ true → ⊥
    stuck e = ground (arith, h, e)

window_same :
    (o : Option Shuler)
    → (elim o [ none ↦ false | some s ↦ s.is_window_open ]) ≡ Select.window_open o
window_same none = refl
window_same (some s) = refl

players_same :
    (o : Option Shuler) (me : String)
    → includes (elim o [ none ↦ [] | some s ↦ s.active_players ]) me ≡ Select.shuler_has o me
players_same none me = refl
players_same (some s) me = refl

and_true : (a b : Bool) → (a && not b) ≡ true → ((a && true) && not b) ≡ true
and_true true b h = h
and_true false b h = cc h

report_at :
    (p : Page) (g : GameState) (ms : MatchState) (me : String)
    → g.match_state ≡ some ms
    → p.current_user_id ≡ some me
    → (me == "") ≡ false
    → runs (shuler_window_ends_at g) p.shuler_window_ms_left ≡ true
    → (Select.window_open ms.shuler && not (Select.shuler_has ms.shuler me)) ≡ true
    → (truthy p.current_user_id
        && (shuler_window_is_live p g
            && not (includes (shuler_players g) (get_or p.current_user_id ""))))
      ≡ true
report_at p g ms me there user named live h =
    let open_at : window_open g ≡ Select.window_open ms.shuler = rw there (window_same ms.shuler) in
    let has_at : includes (shuler_players g) me ≡ Select.shuler_has ms.shuler me =
      rw there (players_same ms.shuler me) in
    rw (user, named, live, open_at, has_at)
      (and_true (Select.window_open ms.shuler) (Select.shuler_has ms.shuler me) h)

-- Where the selector lets the player report a shuler, the page does so too, as long as the window's
-- time, if it has an end, is not over.
pub can_report_shuler-of_select :
    (p : Page) (g : GameState)
    → select_can_shuler_report g p.current_user_id ≡ true
    → runs (shuler_window_ends_at g) p.shuler_window_ms_left ≡ true
    → can_report_shuler p g ≡ true
unfolding select_can_shuler_report can_report_shuler
can_report_shuler-of_select p g h live =
    let (ms, there, said) = while_playing-shown g _ h in
    let (me, user, named, told) = with_user-known p.current_user_id _ said in
    by_affordance-at p g ms there (λ a. a.can_shuler_report) _ _
      (report_at p g ms me there user named live) told

abbrev pub AnsweredOnce : Pile → Type 0
AnsweredOnce pile = (pile.defend ≡ none) ⊎ (pile.defense ≡ none)

-- An attack and its answer, under whichever of the two names it came.
abbrev pub as_shown : Pile → Card × Option Card
as_shown pile = (pile.attack, defense_card pile)

abbrev pub as_ruled : Pile → Card × Option Card
as_ruled pile = (pile.attack, get_defense_card pile)

same_answer : (pile : Pile) → AnsweredOnce pile → as_shown pile ≡ as_ruled pile
unfolding get_defense_card
same_answer pile h = ground arith

pairs-legacy :
    (cards : List Card)
    → map as_shown (build_table_pairs cards) ≡ map as_ruled (build_table_piles_from_legacy cards)
unfolding build_table_pairs build_table_piles_from_legacy get_defense_card
pairs-legacy [] = refl
pairs-legacy (a ∷ []) = refl
pairs-legacy (a ∷ d ∷ cards) = ap (◌∷◌ (a, some d)) (pairs-legacy cards)

map-same_answer :
    (piles : List Pile) → All AnsweredOnce piles → map as_shown piles ≡ map as_ruled piles
map-same_answer [] h = refl
map-same_answer (x ∷ piles) (one, rest) = cc (same_answer x one, map-same_answer piles rest)

-- The server sent no list of piles; or an empty one, and no cards on the table beside it; or a list
-- that is not empty and gives no pile two answers.
abbrev pub HasPlainTable : MatchState → Type 0
HasPlainTable ms =
    (ms.table_piles ≡ none)
    ⊎ ((ms.table_piles ≡ some []) × (get_or ms.table_cards [] ≡ []))
    ⊎ ((first : Pile) × (rest : List Pile) × (ms.table_piles ≡ some (first ∷ rest))
        × All AnsweredOnce (first ∷ rest))

pairs_at :
    (ms : MatchState) → HasPlainTable ms → map as_shown (pairs_of ms) ≡ map as_ruled (piles_of ms)
unfolding pairs_of piles_of build_table_pairs build_table_piles_from_legacy
pairs_at ms (inl e) = rw e (pairs-legacy (get_or ms.table_cards []))
pairs_at ms (inr (inl (e, bare))) = rw (e, bare) refl
pairs_at ms (inr (inr (first, rest, e, once))) = rw e (map-same_answer (first ∷ rest) once)

-- The table that the page draws is the table that the local check of a card goes by, the same
-- attacks in the same order with the same answers, in these cases: the server sent no list of
-- piles; it sent an empty list and no cards on the table beside it; or it sent a list that is not
-- empty, in which no pile has two answers.
pub table_pairs-as_ruled :
    (g : GameState) (ms : MatchState)
    → g.match_state ≡ some ms
    → HasPlainTable ms
    → map as_shown (table_pairs g) ≡ map as_ruled (piles_of ms)
unfolding table_pairs
table_pairs-as_ruled g ms there plain = rw there (pairs_at ms plain)
