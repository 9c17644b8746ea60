-- ===== src/Lobby/Kept.antt =====
-- What becomes of the filters when the page is loaded again.
use durak_card_game.Prelude.{
  ℕ, String, ◌≡◌, ◌≢◌, refl, ap, ◌∙◌, Bool, true, false, ◌==◌, Option, none, some, arith, eq_iff,
  eqb, Bool-cases, inl, inr, if◌then◌else◌,
}
use durak_card_game.Rooms.{text}
use durak_card_game.Lobby.{
  Choice, all, only, FilterState, is_valid_mode, is_valid_fairness, is_deck, is_seat_count,
  is_stake, text_or_all, choice_or_all, stake_or_initial, normalize_filters, Query, with_param,
  number_or_all, number_or_unset, has_any, parse_filters_from_search, set_text, set_choice,
  set_stake, search_of, parse_filters_from_storage, value_of_choice, stored, first_filters,
  initial_filters,
}
use durak_card_game.Lobby.Valid.{FitsChoice, IsValid}

choice_of_value :
    (valid : ℕ → Bool) (c : Choice)
    → FitsChoice valid c
    → choice_or_all valid (value_of_choice c) ≡ c
choice_of_value valid all h = refl
choice_of_value valid (only n) h = rw h refl

-- What the page stores for filters with values on offer reads back as the same filters.
normalize_filters-stored : (f : FilterState) → IsValid f → normalize_filters (stored f) ≡ f
unfolding normalize_filters stored
normalize_filters-stored f v = rw (
  v.mode,
  v.fairness,
  v.stake,
  choice_of_value is_deck f.deck v.deck,
  choice_of_value is_seat_count f.max_players v.seats,
)

abbrev shown_text : String → Option String → Option String
shown_text s before = if s == "all" then before else some s

module _ (q : Query) where
  open q use {Params, get, text_of, number_of, get-set, get-set_other, get-empty}

  abbrev shown_choice : Choice → Option String
  shown_choice all = none
  shown_choice (only n) = some (text_of n)

  abbrev shown_stake : ℕ → Option String
  shown_stake n = if eqb n initial_filters.max_stake then none else some (text_of n)

  get-set_text_other : (k j s : String) (p : Params) → j ≢ k → get k (set_text q j s p) ≡ get k p
  get-set_text_other k j s p h = elim (Bool-cases (s == "all")) [
    | inl e ↦ rw e refl
    | inr e ↦ rw e (get-set_other k j s p h)
  ]

  get-set_text :
      (k s : String) (p : Params) → get k p ≡ none → get k (set_text q k s p) ≡ shown_text s none
  get-set_text k s p h = elim (Bool-cases (s == "all")) [
    | inl e ↦ rw e h
    | inr e ↦ rw e (get-set k s p)
  ]

  get-set_choice_other :
      (k j : String) (c : Choice) (p : Params) → j ≢ k → get k (set_choice q j c p) ≡ get k p
  get-set_choice_other k j all p h = refl
  get-set_choice_other k j (only n) p h = get-set_other k j (text_of n) p h

  get-set_choice :
      (k : String) (c : Choice) (p : Params)
      → get k p ≡ none
      → get k (set_choice q k c p) ≡ shown_choice c
  get-set_choice k all p h = h
  get-set_choice k (only n) p h = get-set k (text_of n) p

  get-set_stake_other :
      (k : String) (n : ℕ) (p : Params)
      → ◌≢◌ {A = String} "maxStake" k
      → get k (set_stake q n p) ≡ get k p
  get-set_stake_other k n p h = elim (Bool-cases (eqb n 500)) [
    | inl e ↦ rw e refl
    | inr e ↦ rw e (get-set_other k "maxStake" (text_of n) p h)
  ]

  get-set_stake :
      (n : ℕ) (p : Params)
      → get "maxStake" p ≡ none
      → get "maxStake" (set_stake q n p) ≡ shown_stake n
  get-set_stake n p h = elim (Bool-cases (eqb n 500)) [
    | inl e ↦ rw e h
    | inr e ↦ rw e (get-set "maxStake" (text_of n) p)
  ]

  apart : (s t : String) → (s == t) ≡ false → s ≢ t
  apart s t h = ground (arith, eq_iff s t)

  module _ (f : FilterState) where
    abbrev with_mode : Params
    with_mode = set_text q "mode" f.mode q.empty

    abbrev with_fairness : Params
    with_fairness = set_text q "fairness" f.fairness with_mode

    abbrev with_deck : Params
    with_deck = set_choice q "deck" f.deck with_fairness

    abbrev with_seats : Params
    with_seats = set_choice q "maxPlayers" f.max_players with_deck

    get-mode : get "mode" (search_of q f) ≡ shown_text f.mode none
    unfolding search_of
    get-mode =
        get-set_stake_other "mode" f.max_stake with_seats (apart _ _ refl)
        ∙ get-set_choice_other "mode" "maxPlayers" f.max_players with_deck (apart _ _ refl)
        ∙ get-set_choice_other "mode" "deck" f.deck with_fairness (apart _ _ refl)
        ∙ get-set_text_other "mode" "fairness" f.fairness with_mode (apart _ _ refl)
        ∙ get-set_text "mode" f.mode q.empty (get-empty "mode")

    get-fairness : get "fairness" (search_of q f) ≡ shown_text f.fairness none
    unfolding search_of
    get-fairness =
        get-set_stake_other "fairness" f.max_stake with_seats (apart _ _ refl)
        ∙ get-set_choice_other "fairness" "maxPlayers" f.max_players with_deck (apart _ _ refl)
        ∙ get-set_choice_other "fairness" "deck" f.deck with_fairness (apart _ _ refl)
        ∙ get-set_text "fairness" f.fairness with_mode (
            get-set_text_other "fairness" "mode" f.mode q.empty (apart _ _ refl)
            ∙ get-empty "fairness")

    unset_by_texts :
        (k : String)
        → ◌≢◌ {A = String} "mode" k
        → ◌≢◌ {A = String} "fairness" k
        → get k with_fairness ≡ none
    unset_by_texts k h m =
        get-set_text_other k "fairness" f.fairness with_mode m
        ∙ get-set_text_other k "mode" f.mode q.empty h
        ∙ get-empty k

    get-deck : get "deck" (search_of q f) ≡ shown_choice f.deck
    unfolding search_of
    get-deck =
        get-set_stake_other "deck" f.max_stake with_seats (apart _ _ refl)
        ∙ get-set_choice_other "deck" "maxPlayers" f.max_players with_deck (apart _ _ refl)
        ∙ get-set_choice "deck" f.deck with_fairness
            (unset_by_texts "deck" (apart _ _ refl) (apart _ _ refl))

    get-seats : get "maxPlayers" (search_of q f) ≡ shown_choice f.max_players
    unfolding search_of
    get-seats =
        get-set_stake_other "maxPlayers" f.max_stake with_seats (apart _ _ refl)
        ∙ get-set_choice "maxPlayers" f.max_players with_deck (
            get-set_choice_other "maxPlayers" "deck" f.deck with_fairness (apart _ _ refl)
            ∙ unset_by_texts "maxPlayers" (apart _ _ refl) (apart _ _ refl))

    get-stake : get "maxStake" (search_of q f) ≡ shown_stake f.max_stake
    unfolding search_of
    get-stake = get-set_stake f.max_stake with_seats (
        get-set_choice_other "maxStake" "maxPlayers" f.max_players with_deck (apart _ _ refl)
        ∙ get-set_choice_other "maxStake" "deck" f.deck with_fairness (apart _ _ refl)
        ∙ unset_by_texts "maxStake" (apart _ _ refl) (apart _ _ refl))

  valid-nonempty :
      (valid : String → Bool) (s : String) → valid s ≡ true → valid "" ≡ false → (s == "") ≡ false
  valid-nonempty valid s h empty = elim (Bool-cases (s == "")) [
    | inl e ↦ absurd (cc (h, empty, ap valid ((eq_iff s "").0 e)))
    | inr e ↦ e
  ]

  number_shown : (n : ℕ) → (text_of n == "") ≡ false
  number_shown n = ground (arith, eq_iff (text_of n) "", q.text_of-nonempty n)

  no_search :
      (f : FilterState)
      → has_any q (search_of q f) ≡ false
      → parse_filters_from_search q (search_of q f) ≡ none
  unfolding parse_filters_from_search
  no_search f h = rw h refl

  text_kept :
      (valid : String → Bool) (s : String)
      → valid s ≡ true
      → valid "" ≡ false
      → text_or_all valid (with_param (shown_text s none) text) ≡ s
  text_kept valid s h empty = elim (Bool-cases (s == "all")) [
    | inl e ↦ rw ((eq_iff s "all").0 e) refl
    | inr e ↦ rw (e, valid-nonempty valid s h empty, h) refl
  ]

  choice_kept :
      (valid : ℕ → Bool) (c : Choice)
      → FitsChoice valid c
      → choice_or_all valid (with_param (shown_choice c) (λ s. number_or_all valid (number_of s)))
        ≡ c
  choice_kept valid all h = refl
  choice_kept valid (only n) h = rw (number_shown n, q.number_of-text_of n, h) (rw h refl)

  stake_kept :
      (n : ℕ)
      → is_stake n ≡ true
      → stake_or_initial (with_param (shown_stake n) (λ s. number_or_unset (number_of s))) ≡ n
  stake_kept n h = elim (Bool-cases (eqb n 500)) [
    | inl e ↦ rw e (ground (arith, e))
    | inr e ↦ rw (e, number_shown n, q.number_of-text_of n, h) refl
  ]

  -- The filters, read from the address after it has any of them.
  parse-search_of :
      (f : FilterState)
      → IsValid f
      → has_any q (search_of q f) ≡ true
      → parse_filters_from_search q (search_of q f) ≡ some f
  unfolding parse_filters_from_search normalize_filters
  parse-search_of f v h = rw (
    h,
    get-mode f,
    get-fairness f,
    get-deck f,
    get-seats f,
    get-stake f,
    text_kept is_valid_mode f.mode v.mode refl,
    text_kept is_valid_fairness f.fairness v.fairness refl,
    choice_kept is_deck f.deck v.deck,
    choice_kept is_seat_count f.max_players v.seats,
    stake_kept f.max_stake v.stake,
  )

-- Loading the page again, with the address and the storage as the page left them, brings back the
-- filters, whichever of the two it reads them from, if they have values on offer.
pub first_filters-kept :
    (q : Query) (f : FilterState)
    → IsValid f
    → first_filters q (search_of q f) (some (stored f)) ≡ f
unfolding first_filters parse_filters_from_storage
first_filters-kept q f v = elim (Bool-cases (has_any q (search_of q f))) [
  | inl e ↦ rw (parse-search_of q f v e, first_filters) refl
  | inr e ↦ rw (no_search q f e, first_filters, normalize_filters-stored f v)
]
