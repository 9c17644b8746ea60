-- ===== src/Lobby/Matching.antt =====
-- Which rooms the filters leave.
use durak_card_game.Prelude.{
  not, ◌||◌, ◌==◌, ◌≢◌, Bool-cases, ℕ, ◌≤◌, ◌<◌, ◌↔◌, Option, none, some, [], ◌∷◌, ◌++◌,
  lower_includes, String, ◌≡◌, refl, Bool, true, false, ◌&&◌, List, ◌⊎◌, inl, inr, arith, eq_iff,
  All, find-filter, find-cases,
}
use Prim.Native.String as Text
use durak_card_game.Rooms.{Room}
use durak_card_game.Lobby.{Choice, all, only, FilterState, is_valid_mode, is_valid_fairness}
use durak_card_game.Lobby.Search.{
  room_matches_mode, room_matches_fairness, match_room_mode_stable, match_room_fairness_stable,
  passes, below, at_most, fits, quick_room, filtered_rooms, handle_quick_game,
}
use durak_card_game.Lobby.Valid.{IsValid}

mode_cases :
    (s : String) → is_valid_mode s ≡ true → (s ≡ "all") ⊎ ((s ≡ "Подкидной") ⊎ (s ≡ "Переводной"))
mode_cases s h = ground (arith, eq_iff s "all", eq_iff s "Подкидной", eq_iff s "Переводной")

fairness_cases :
    (s : String) → is_valid_fairness s ≡ true → (s ≡ "all") ⊎ ((s ≡ "Честная игра") ⊎ (s ≡ "Шулер"))
fairness_cases s h = ground (arith, eq_iff s "all", eq_iff s "Честная игра", eq_iff s "Шулер")

mode_agrees :
    (mode s : String)
    → is_valid_mode s ≡ true
    → match_room_mode_stable mode s ≡ room_matches_mode mode s
unfolding match_room_mode_stable room_matches_mode
mode_agrees mode s h = elim (mode_cases s h) [
  | inl e ↦ rw e refl
  | inr (inl e) ↦ rw e refl
  | inr (inr e) ↦ rw e refl
]

fairness_agrees :
    (mode s : String)
    → is_valid_fairness s ≡ true
    → match_room_fairness_stable mode s ≡ room_matches_fairness mode s
unfolding match_room_fairness_stable room_matches_fairness
fairness_agrees mode s h = elim (fairness_cases s h) [
  | inl e ↦ rw e refl
  | inr (inl e) ↦ rw e refl
  | inr (inr e) ↦ rw e refl
]

-- The two versions of each test that the page has agree on every room, at filters with values on
-- offer.
pub stable-agrees :
    (f : FilterState) (mode : String)
    → IsValid f
    → (match_room_mode_stable mode f.mode ≡ room_matches_mode mode f.mode)
      × (match_room_fairness_stable mode f.fairness ≡ room_matches_fairness mode f.fairness)
stable-agrees f mode v =
    (mode_agrees mode f.mode v.mode, fairness_agrees mode f.fairness v.fairness)

-- A text has one of two words, in letters of either case.
abbrev pub HasWord : String → String → String → Type 0
HasWord s word other = (lower_includes s word ≡ true) ⊎ (lower_includes s other ≡ true)

abbrev pub SuitsMode : String → String → Type 0
SuitsMode wanted mode =
    (wanted ≡ "all")
    ⊎ ((wanted ≡ "Подкидной") × HasWord mode "подкид" "podkid")
    ⊎ ((wanted ≡ "Переводной") × HasWord mode "перевод" "perevod")

abbrev pub SuitsFairness : String → String → Type 0
SuitsFairness wanted mode =
    (wanted ≡ "all")
    ⊎ ((wanted ≡ "Шулер") × HasWord mode "шулер" "shuler")
    ⊎ ((wanted ≡ "Честная игра") × (¬ HasWord mode "шулер" "shuler"))

-- Any value, or the one that is wanted.
abbrev pub SuitsChoice : Choice → Option ℕ → Type 0
SuitsChoice all value = Unit
SuitsChoice (only n) value = value ≡ some n

-- The room is what the filters ask for, and has a free seat.
pub record Suits (f : FilterState) (r : Room) : Type 0 where
  pub mode : SuitsMode f.mode r.mode
  pub fairness : SuitsFairness f.fairness r.mode
  pub stake : (n : ℕ) × (r.stake_usd ≡ some n) × (n ≤ f.max_stake)
  pub deck : SuitsChoice f.deck r.deck
  pub seats : SuitsChoice f.max_players r.max_players
  pub free : (n : ℕ) × (r.max_players ≡ some n) × (r.players < n)

unlike : (s t : String) → (s == t) ≡ false → s ≢ t
unlike s t h e = ground (arith, eq_iff s t, h, e)

or_iff : (a b : Bool) → ((a || b) ≡ true) ↔ ((a ≡ true) ⊎ (b ≡ true))
or_iff a b = ground arith

no_word :
    (mode word other : String)
    → (not (lower_includes mode word || lower_includes mode other) ≡ true)
      ↔ (¬ HasWord mode word other)
no_word mode word other = (
  λ h k. ground (arith, h, k),
  λ none_there.
      ground
        (arith, none_there, Bool-cases (lower_includes mode word || lower_includes mode other)),
)

mode_iff :
    (wanted mode : String)
    → is_valid_mode wanted ≡ true
    → (match_room_mode_stable mode wanted ≡ true) ↔ SuitsMode wanted mode
unfolding room_matches_mode
mode_iff wanted mode valid = rw (mode_agrees mode wanted valid) (elim (mode_cases wanted valid) [
  | inl e ↦ rw e (λ _. inl refl, λ _. refl)
  | inr (inl e) ↦ rw e (
    λ h. inr (inl (refl, (or_iff _ _).0 h)),
    λ suits. elim suits [
      | inl x ↦ absurd (unlike "Подкидной" "all" refl x)
      | inr (inl (_, words)) ↦ (or_iff _ _).1 words
      | inr (inr (x, _)) ↦ absurd (unlike "Подкидной" "Переводной" refl x)
    ],
  )
  | inr (inr e) ↦ rw e (
    λ h. inr (inr (refl, (or_iff _ _).0 h)),
    λ suits. elim suits [
      | inl x ↦ absurd (unlike "Переводной" "all" refl x)
      | inr (inl (x, _)) ↦ absurd (unlike "Переводной" "Подкидной" refl x)
      | inr (inr (_, words)) ↦ (or_iff _ _).1 words
    ],
  )
])

fairness_iff :
    (wanted mode : String)
    → is_valid_fairness wanted ≡ true
    → (match_room_fairness_stable mode wanted ≡ true) ↔ SuitsFairness wanted mode
unfolding room_matches_fairness
fairness_iff wanted mode valid =
    rw (fairness_agrees mode wanted valid) (elim (fairness_cases wanted valid) [
      | inl e ↦ rw e (λ _. inl refl, λ _. refl)
      | inr (inl e) ↦ rw e (
        λ h. inr (inr (refl, (no_word mode "шулер" "shuler").0 h)),
        λ suits. elim suits [
          | inl x ↦ absurd (unlike "Честная игра" "all" refl x)
          | inr (inl (x, _)) ↦ absurd (unlike "Честная игра" "Шулер" refl x)
          | inr (inr (_, absent)) ↦ (no_word mode "шулер" "shuler").1 absent
        ],
      )
      | inr (inr e) ↦ rw e (
        λ h. inr (inl (refl, (or_iff _ _).0 h)),
        λ suits. elim suits [
          | inl x ↦ absurd (unlike "Шулер" "all" refl x)
          | inr (inl (_, words)) ↦ (or_iff _ _).1 words
          | inr (inr (x, _)) ↦ absurd (unlike "Шулер" "Честная игра" refl x)
        ],
      )
    ])

at_most_iff : (o : Option ℕ) (n : ℕ) → (at_most o n ≡ true) ↔ ((m : ℕ) × (o ≡ some m) × (m ≤ n))
at_most_iff none n = (λ h. cc h, λ (m, e, le). cc e)
at_most_iff (some m) n = (λ h. (m, refl, ground (arith, h)), λ (k, e, le). ground (arith, e, le))

below_iff : (n : ℕ) (o : Option ℕ) → (below n o ≡ true) ↔ ((m : ℕ) × (o ≡ some m) × (n < m))
below_iff n none = (λ h. cc h, λ (m, e, lt). cc e)
below_iff n (some m) = (λ h. (m, refl, ground (arith, h)), λ (k, e, lt). ground (arith, e, lt))

fits_iff : (c : Choice) (o : Option ℕ) → (fits c o ≡ true) ↔ SuitsChoice c o
fits_iff all o = (λ _. tt, λ _. refl)
fits_iff (only n) none = (λ h. cc h, λ h. cc h)
fits_iff (only n) (some m) = (λ h. ground (arith, h), λ h. ground (arith, h))

abbrev is_free : FilterState → Room → Bool
is_free f r = passes f r && below r.players r.max_players

is_free-parts_iff :
    (f : FilterState) (r : Room)
    → (is_free f r ≡ true) ↔ (
        (match_room_mode_stable r.mode f.mode ≡ true)
        × (match_room_fairness_stable r.mode f.fairness ≡ true)
        × (at_most r.stake_usd f.max_stake ≡ true)
        × (fits f.deck r.deck ≡ true)
        × (fits f.max_players r.max_players ≡ true)
        × (below r.players r.max_players ≡ true))
unfolding passes
is_free-parts_iff f r = ground arith

is_free-Suits_iff : (f : FilterState) (r : Room) → IsValid f → (is_free f r ≡ true) ↔ Suits f r
is_free-Suits_iff f r v = (
  λ h.
      let (a, b, c, d, e, g) = (is_free-parts_iff f r).0 h in
      record {
        mode = (mode_iff f.mode r.mode v.mode).0 a;
        fairness = (fairness_iff f.fairness r.mode v.fairness).0 b;
        stake = (at_most_iff r.stake_usd f.max_stake).0 c;
        deck = (fits_iff f.deck r.deck).0 d;
        seats = (fits_iff f.max_players r.max_players).0 e;
        free = (below_iff r.players r.max_players).0 g;
      },
  λ s. (is_free-parts_iff f r).1 (
    (mode_iff f.mode r.mode v.mode).1 s.mode,
    (fairness_iff f.fairness r.mode v.fairness).1 s.fairness,
    (at_most_iff r.stake_usd f.max_stake).1 s.stake,
    (fits_iff f.deck r.deck).1 s.deck,
    (fits_iff f.max_players r.max_players).1 s.seats,
    (below_iff r.players r.max_players).1 s.free,
  ),
)

none-Suits :
    (f : FilterState) (v : IsValid f) (rooms : List Room)
    → All (λ r. is_free f r ≡ false) rooms
    → All (λ r. ¬ Suits f r) rooms
none-Suits f v [] h = tt
none-Suits f v (r ∷ rooms) (no_seat, h) =
    (λ s. ground (arith, (is_free-Suits_iff f r v).1 s, no_seat), none-Suits f v rooms h)

-- With filters that have values on offer, a quick game goes to a room that is what the filters ask
-- for in its mode, fairness, stake, deck and seats, and has a free seat, while no room before it in
-- the server's list is such; it goes to the creation of a game only where no room of the list is.
pub handle_quick_game-first :
    (f : FilterState) (rooms : List Room)
    → IsValid f
    → ((handle_quick_game f rooms ≡ "/play/create") × All (λ r. ¬ Suits f r) rooms)
      ⊎ ((r : Room) × (before after : List Room) × (handle_quick_game f rooms
            ≡ Text.◌++◌ "/room/" r.id)
          × (rooms ≡ before ++ r ∷ after)
          × All (λ s. ¬ Suits f s) before
          × Suits f r)
unfolding handle_quick_game quick_room filtered_rooms
handle_quick_game-first f rooms v =
    let same = find-filter (passes f) (λ r. below r.players r.max_players) rooms in
    elim (find-cases (is_free f) rooms) [
      | inl (gone, none_free) ↦
          inl (rw (same, gone, handle_quick_game) refl, none-Suits f v rooms none_free)
      | inr (r, there, first) ↦ inr (
        r,
        first.before,
        first.after,
        rw (same, there, handle_quick_game) refl,
        first.split,
        none-Suits f v first.before first.earlier,
        (is_free-Suits_iff f r v).0 first.found,
      )
    ]
