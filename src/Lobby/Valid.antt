-- ===== src/Lobby/Valid.antt =====
-- Filters with values on offer.
use durak_card_game.Prelude.{ℕ, String, ◌≡◌, refl, Bool, true, Bool-cases, inl, inr}
use durak_card_game.Rooms.{Value, missing, number, text}
use durak_card_game.Lobby.{
  Choice, all, only, FilterState, PartialFilters, is_valid_mode, is_valid_fairness, is_deck,
  is_seat_count, is_stake, text_or_all, choice_or_all, stake_or_initial, normalize_filters,
}

abbrev pub FitsChoice : (ℕ → Bool) → Choice → Type 0
FitsChoice valid all = Unit
FitsChoice valid (only n) = valid n ≡ true

-- Every field has one of the values that its type lists.
pub record IsValid (f : FilterState) : Type 0 where
  pub mode : is_valid_mode f.mode ≡ true
  pub fairness : is_valid_fairness f.fairness ≡ true
  pub stake : is_stake f.max_stake ≡ true
  pub deck : FitsChoice is_deck f.deck
  pub seats : FitsChoice is_seat_count f.max_players

text_or_all-valid :
    (valid : String → Bool) (v : Value) → valid "all" ≡ true → valid (text_or_all valid v) ≡ true
text_or_all-valid valid (text s) h = elim (Bool-cases (valid s)) [ inl e ↦ rw e e | inr e ↦ rw e h ]
text_or_all-valid valid missing h = h
text_or_all-valid valid (number n) h = h
text_or_all-valid valid (Value.list xs) h = h
text_or_all-valid valid (Value.bool b) h = h
text_or_all-valid valid Value.object h = h

choice_or_all-FitsChoice : (valid : ℕ → Bool) (v : Value) → FitsChoice valid (choice_or_all valid v)
choice_or_all-FitsChoice valid (number n) = elim (Bool-cases (valid n)) [
  | inl e ↦ rw e e
  | inr e ↦ rw e tt
]
choice_or_all-FitsChoice valid missing = tt
choice_or_all-FitsChoice valid (text s) = tt
choice_or_all-FitsChoice valid (Value.list xs) = tt
choice_or_all-FitsChoice valid (Value.bool b) = tt
choice_or_all-FitsChoice valid Value.object = tt

stake_or_initial-valid : (v : Value) → is_stake (stake_or_initial v) ≡ true
stake_or_initial-valid (number n) = elim (Bool-cases (is_stake n)) [
  | inl e ↦ rw e e
  | inr e ↦ rw e refl
]
stake_or_initial-valid missing = refl
stake_or_initial-valid (text s) = refl
stake_or_initial-valid (Value.list xs) = refl
stake_or_initial-valid (Value.bool b) = refl
stake_or_initial-valid Value.object = refl

-- Whatever stood in the address or in the storage, the filters made of it have values on offer.
pub normalize_filters-IsValid : (p : PartialFilters) → IsValid (normalize_filters p)
unfolding normalize_filters
normalize_filters-IsValid p = record {
  mode = text_or_all-valid is_valid_mode p.mode refl;
  fairness = text_or_all-valid is_valid_fairness p.fairness refl;
  stake = stake_or_initial-valid p.max_stake;
  deck = choice_or_all-FitsChoice is_deck p.deck;
  seats = choice_or_all-FitsChoice is_seat_count p.max_players;
}
