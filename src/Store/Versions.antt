-- ===== src/Store/Versions.antt =====
-- Which states of the match the store accepts, and who hears of a change.
use durak_card_game.Prelude.{
  ℕ, ◌≤◌, ◌<◌, ◌≡◌, refl, ◌⊎◌, inl, inr, Bool, true, false, Option, none, some, List, [], ◌∷◌, ◌++◌,
  map, arith, eqb, ◌∙◌, any-append, any, filter, not, or_else, if◌then◌else◌, Bool-cases,
  Option-cases,
}
use durak_card_game.Match.{MatchState}
use durak_card_game.Store.{
  Store, GameState, version_of, is_stale, set_match_state_if_newer, subscribe_game_store,
  unsubscribe,
}

-- `a` comes no later than `b`; a state with no version yet comes before all.
abbrev pub VersionLe : Option ℕ → Option ℕ → Type 0
VersionLe none b = Unit
VersionLe (some a) none = ⊥
VersionLe (some a) (some b) = a ≤ b

pub VersionLe-refl : (a : Option ℕ) → VersionLe a a
VersionLe-refl none = tt
VersionLe-refl (some a) = omega arith

pub VersionLe-trans : (a b c : Option ℕ) → VersionLe a b → VersionLe b c → VersionLe a c
VersionLe-trans none b c h k = tt
VersionLe-trans (some a) (some b) (some c) h k = omega arith
VersionLe-trans (some a) (some b) none h k = absurd k
VersionLe-trans (some a) none c h k = absurd h

abbrev pub state_version : Store → Option ℕ
state_version s = version_of s.state.match_state

-- `a` is below `v`, or there is no `a` yet.
abbrev pub VersionLt : Option ℕ → ℕ → Type 0
VersionLt none v = Unit
VersionLt (some a) v = a < v

-- A payload with a version either is no newer than the state, and then nothing changes, or is newer,
-- and then it replaces the state of the match and unlocks the table and nothing else of the state.
pub set_match_state_if_newer-cases :
    (payload : MatchState) (s : Store) (v : ℕ)
    → payload.version ≡ some v
    → ((set_match_state_if_newer payload s ≡ s) × ((c : ℕ) × (state_version s ≡ some c) × (v ≤ c)))
      ⊎ (((set_match_state_if_newer payload s).state
            ≡ record s.state { match_state = some payload; interaction_locked = false })
          × VersionLt (state_version s) v)
unfolding set_match_state_if_newer
set_match_state_if_newer-cases payload s v e = elim (Option-cases (state_version s)) [
  | inl none_yet ↦ inr (ground arith, rw none_yet tt)
  | inr (c, has) ↦ elim (Bool-cases (is_stale payload.version (state_version s))) [
    | inl stale ↦ inl (rw stale, (c, has, ground arith))
    | inr fresh ↦ inr (ground arith, ground arith)
  ]
]

-- With payloads that have a version, the version of the match never goes back.
pub set_match_state_if_newer_mono :
    (payload : MatchState) (s : Store) (v : ℕ)
    → payload.version ≡ some v
    → VersionLe (state_version s) (state_version (set_match_state_if_newer payload s))
unfolding set_match_state_if_newer
set_match_state_if_newer_mono payload s v e = elim (Option-cases (state_version s)) [
  | inl none_yet ↦ rw none_yet tt
  | inr (c, has) ↦ ground arith
]

-- What listener `l` was given last.
abbrev pub last_seen : ℕ → List (ℕ × GameState) → Option GameState
last_seen l [] = none
last_seen l ((k, g) ∷ calls) = or_else (last_seen l calls) (if eqb l k then some g else none)

last_seen-append :
    (l : ℕ) (xs ys : List (ℕ × GameState))
    → last_seen l (xs ++ ys) ≡ or_else (last_seen l ys) (last_seen l xs)
last_seen-append l [] ys = ground arith
last_seen-append l ((k, g) ∷ xs) ys = ground (arith, last_seen-append l xs ys)

last_seen-map :
    (l : ℕ) (g : GameState) (ls : List ℕ)
    → last_seen l (map (λ k. (k, g)) ls) ≡ (if any (eqb l) ls then some g else none)
last_seen-map l g [] = refl
last_seen-map l g (k ∷ ls) = ground (arith, last_seen-map l g ls)

-- Every listener was last given the present state.
pub record IsInformed (s : Store) : Type 0 where
  pub last : (l : ℕ) → any (eqb l) s.listeners ≡ true → last_seen l s.calls ≡ some s.state

-- The state that is put in, with the calls that `update` makes.
abbrev pub delivered : GameState → Store → Store
delivered g s = record s { state = g; calls = s.calls ++ map (λ l. (l, g)) s.listeners }

pub delivered-IsInformed : (g : GameState) (s : Store) → IsInformed (delivered g s)
delivered-IsInformed g s = record {
  last = λ l h.
      last_seen-append l s.calls (map (λ k. (k, g)) s.listeners)
      ∙ rw (last_seen-map l g s.listeners, h);
}

pub if-IsInformed :
    (b : Bool) (s t : Store) → IsInformed s → IsInformed t → IsInformed (if b then s else t)
if-IsInformed true s t h k = h
if-IsInformed false s t h k = k

pub subscribe-IsInformed :
    (k : ℕ) (s : Store) → IsInformed s → IsInformed (subscribe_game_store k s)
unfolding subscribe_game_store
subscribe-IsInformed k s informed = record {
  last = λ l h.
      last_seen-append l s.calls ((k, s.state) ∷ [])
      ∙ ground (arith, informed.last l, any-append (eqb l) s.listeners (k ∷ []));
}

any-filter_ne :
    (l k : ℕ) (ls : List ℕ)
    → any (eqb l) (filter (λ j. not (eqb j k)) ls) ≡ true
    → any (eqb l) ls ≡ true
any-filter_ne l k [] h = h
any-filter_ne l k (j ∷ ls) h = ground (arith, any-filter_ne l k ls)

pub unsubscribe-IsInformed : (k : ℕ) (s : Store) → IsInformed s → IsInformed (unsubscribe k s)
unfolding unsubscribe
unsubscribe-IsInformed k s informed = record {
  last = λ l h. informed.last l (any-filter_ne l k s.listeners h);
}

not_listening : (k : ℕ) (ls : List ℕ) → any (eqb k) (filter (λ j. not (eqb j k)) ls) ≡ false
not_listening k [] = refl
not_listening k (j ∷ ls) = ground (arith, not_listening k ls)

-- A listener that was removed is not called again.
pub unsubscribe-removes : (k : ℕ) (s : Store) → any (eqb k) (unsubscribe k s).listeners ≡ false
unfolding unsubscribe
unsubscribe-removes k s = not_listening k s.listeners
