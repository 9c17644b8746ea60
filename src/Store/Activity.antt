-- ===== src/Store/Activity.antt =====
-- The activity list: its bound, its pruning, and the ids of its moves.
use durak_card_game.EventId.{parse_move_version_from_event_id}
use durak_card_game.Prelude.{
  ◌↔◌, Option, leb, ◌+◌, none, ℕ, zero, suc, ◌-◌, ◌≤◌, ◌<◌, String, ◌≡◌, refl, ◌⊎◌, inl, inr, Bool,
  true, false, some, List, [], ◌∷◌, ◌++◌, ◌==◌, eq_iff, arith, ◌||◌, any, any-append, filter, drop,
  length, length-take_last-le, filter-eq_of_length, ◌≢◌, Bool-cases,
}
use durak_card_game.Store.{
  ActivityItem, MoveItem, move, system, activity_limit, push_activity, is_fresh, Store,
  prune_stale_move_activity, stale_activity_version_window, update,
}

pub length-push_activity-le :
    (item : ActivityItem) (activity : List ActivityItem)
    → length (push_activity item activity) ≤ activity_limit
unfolding push_activity
length-push_activity-le item activity = length-take_last-le activity_limit (activity ++ item ∷ [])

abbrev pub is_move : String → ActivityItem → Bool
is_move event_id (move m) = m.event_id == event_id
is_move event_id (system message now) = false

-- `hasMoveEventIdInActivity` of src/processes/joinGame.process.ts
unfoldable pub has_move : String → List ActivityItem → Bool
has_move event_id = any (is_move event_id)

-- No two moves of the list have one id.
abbrev pub AreDistinct : List ActivityItem → Type 0
AreDistinct [] = Unit
AreDistinct (system message now ∷ items) = AreDistinct items
AreDistinct (move m ∷ items) = (has_move m.event_id items ≡ false) × AreDistinct items

has_move-drop :
    (id : String) (n : ℕ) (items : List ActivityItem)
    → has_move id items ≡ false
    → has_move id (drop n items) ≡ false
unfolding has_move
has_move-drop id zero items h = h
has_move-drop id (suc n) [] h = h
has_move-drop id (suc n) (i ∷ items) h = has_move-drop id n items (ground arith)

has_move-filter :
    (id : String) (p : ActivityItem → Bool) (items : List ActivityItem)
    → has_move id items ≡ false
    → has_move id (filter p items) ≡ false
unfolding has_move
has_move-filter id p [] h = h
has_move-filter id p (i ∷ items) h = ground (arith, has_move-filter id p items)

pub AreDistinct-drop :
    (n : ℕ) (items : List ActivityItem) → AreDistinct items → AreDistinct (drop n items)
AreDistinct-drop zero items h = h
AreDistinct-drop (suc n) [] h = h
AreDistinct-drop (suc n) (system message now ∷ items) h = AreDistinct-drop n items h
AreDistinct-drop (suc n) (move m ∷ items) (new, h) = AreDistinct-drop n items h

pub AreDistinct-filter :
    (p : ActivityItem → Bool) (items : List ActivityItem)
    → AreDistinct items
    → AreDistinct (filter p items)
AreDistinct-filter p [] h = h
AreDistinct-filter p (system message now ∷ items) h = ground (arith, AreDistinct-filter p items h)
AreDistinct-filter p (move m ∷ items) (new, h) = elim (Bool-cases (p (move m))) [
  | inl keep ↦ rw keep (has_move-filter m.event_id p items new, AreDistinct-filter p items h)
  | inr out ↦ rw out (AreDistinct-filter p items h)
]

has_move-append :
    (id : String) (xs ys : List ActivityItem)
    → has_move id (xs ++ ys) ≡ (has_move id xs || has_move id ys)
unfolding has_move
has_move-append id xs ys = any-append (is_move id) xs ys

-- An item that is no move, or a move whose id is new.
abbrev pub IsNew : ActivityItem → List ActivityItem → Type 0
IsNew (system message now) items = Unit
IsNew (move m) items = has_move m.event_id items ≡ false

has_move-cons :
    (id : String) (n : MoveItem) (items : List ActivityItem)
    → has_move id (move n ∷ items) ≡ false
    → (n.event_id ≢ id) × (has_move id items ≡ false)
unfolding has_move
has_move-cons id n items h = ground (arith, eq_iff n.event_id id)

has_move_one : (id : String) (m : MoveItem) → id ≢ m.event_id → has_move id (move m ∷ []) ≡ false
unfolding has_move
has_move_one id m h = ground (arith, eq_iff m.event_id id)

AreDistinct-append :
    (items : List ActivityItem) (item : ActivityItem)
    → AreDistinct items
    → IsNew item items
    → AreDistinct (items ++ item ∷ [])
unfolding has_move
AreDistinct-append [] (system message now) h new = tt
AreDistinct-append [] (move m) h new = (new, tt)
AreDistinct-append (system s t ∷ items) (system message now) h new =
    AreDistinct-append items (system message now) h tt
AreDistinct-append (system s t ∷ items) (move m) h new = AreDistinct-append items (move m) h new
AreDistinct-append (move n ∷ items) (system message now) (old, h) new =
    (rw (has_move-append, old) refl, AreDistinct-append items (system message now) h tt)
AreDistinct-append (move n ∷ items) (move m) (old, h) new =
    let (other, later) = has_move-cons m.event_id n items new in
    (
      rw (has_move-append, old) (has_move_one n.event_id m other),
      AreDistinct-append items (move m) h later,
    )

pub AreDistinct-push_activity :
    (item : ActivityItem) (items : List ActivityItem)
    → AreDistinct items
    → IsNew item items
    → AreDistinct (push_activity item items)
unfolding push_activity
AreDistinct-push_activity item items h new =
    AreDistinct-drop (length (items ++ item ∷ []) - activity_limit) (items ++ item ∷ [])
      (AreDistinct-append items item h new)

has_move_two :
    (id : String) (m : MoveItem) (items : List ActivityItem)
    → has_move id (items ++ move m ∷ []) ≡ true
    → (has_move id items ≡ true) ⊎ (m.event_id ≡ id)
unfolding has_move
has_move_two id m items h =
    ground (arith, any-append (is_move id) items (move m ∷ []), eq_iff m.event_id id)

-- Only the pushed move can be new in the list.
pub has_move-push_activity :
    (id : String) (m : MoveItem) (items : List ActivityItem)
    → has_move id (push_activity (move m) items) ≡ true
    → (has_move id items ≡ true) ⊎ (m.event_id ≡ id)
unfolding push_activity
has_move-push_activity id m items h = elim (Bool-cases (has_move id (items ++ move m ∷ []))) [
  | inl old ↦ has_move_two id m items old
  | inr new ↦
      cc (
        has_move-drop id (length (items ++ move m ∷ []) - activity_limit) (items ++ move m ∷ [])
          new)
]

-- An item that is no move, a move whose id shows no version, or one at most 80 versions old.
abbrev pub IsRecent : ℕ → ActivityItem → Type 0
IsRecent v (system message now) = Unit
IsRecent v (move m) =
    (parse_move_version_from_event_id m.event_id ≡ none)
    ⊎ ((n : ℕ) × (parse_move_version_from_event_id m.event_id ≡ some n) × (v ≤ n + 80))

recent_at :
    (v : ℕ) (o : Option ℕ)
    → ((elim o [ none ↦ true | some version ↦ leb (v - 80) version ]) ≡ true)
      ↔ ((o ≡ none) ⊎ ((n : ℕ) × (o ≡ some n) × (v ≤ n + 80)))
recent_at v none = (λ _. inl refl, λ _. refl)
recent_at v (some n) = (
  λ h. inr (n, refl, ground (arith, h)),
  λ h. elim h [ inl gone ↦ cc gone | inr (k, same, recent) ↦ ground (arith, same, recent) ],
)

is_fresh-IsRecent_iff :
    (v : ℕ) (item : ActivityItem) → (is_fresh (v - 80) item ≡ true) ↔ IsRecent v item
unfolding is_fresh
is_fresh-IsRecent_iff v (system message now) = (λ _. tt, λ _. refl)
is_fresh-IsRecent_iff v (move m) = recent_at v (parse_move_version_from_event_id m.event_id)

pub prune-filter :
    (v : ℕ) (s : Store)
    → 0 < v
    → (prune_stale_move_activity (some v) s).state.activity
      ≡ filter (is_fresh (v - stale_activity_version_window)) s.state.activity
unfolding prune_stale_move_activity update
prune-filter v s h =
    ground
      (arith, filter-eq_of_length (is_fresh (v - stale_activity_version_window)) s.state.activity)

-- Pruning at a positive version filters the list by a test that holds exactly of the items that are
-- no move, of the moves whose id shows no version, and of those at most 80 versions old.
pub prune_stale_move_activity_lem :
    (v : ℕ) (s : Store)
    → 0 < v
    → (keeps : ActivityItem → Bool) × ((prune_stale_move_activity (some v) s).state.activity
        ≡ filter keeps s.state.activity)
      × ((item : ActivityItem) → (keeps item ≡ true) ↔ IsRecent v item)
prune_stale_move_activity_lem v s h =
    (is_fresh (v - stale_activity_version_window), prune-filter v s h, is_fresh-IsRecent_iff v)
