-- ===== src/Join/Held.antt =====
-- A locked table, and the operations of the store that keep it locked or bring a newer version.
use durak_card_game.Prelude.{
  ℕ, ◌≡◌, refl, Bool, true, false, Option, none, some, arith, Bool-cases, inl, inr, if◌then◌else◌,
}
use durak_card_game.Match.{MatchState}
use durak_card_game.Store.{
  Store, is_stale, version_of, clear_game_error, set_match_state_if_newer,
  prune_stale_move_activity, add_activity_item, update,
}
use durak_card_game.Replay.{Buffer, flush}
use durak_card_game.Replay.Guards.{IsKept, flush-keeps}
use durak_card_game.Join.State.{Env, Session, World, session_host}
use durak_card_game.Join.Handlers.{note_version}
use durak_card_game.Prelude.{◌<◌, ◌⊎◌}
use durak_card_game.Store.Versions.{state_version}
use durak_card_game.Join.Frame.{flush-match_state, prune-match_state}

-- What the replay writes leaves the lock alone, and the version.
pub locked_at-IsKept :
    (env : Env) (b : Bool) → IsKept (session_host env) (λ s. s.store.state.interaction_locked ≡ b)
unfolding add_activity_item update
locked_at-IsKept env b = record {
  add = λ m h new i. i;
  pending = λ n k h i. i;
  duplicate = λ h i. i;
  stale = λ h i. i;
  flushed = λ h i. i;
  versioned = λ h i. i;
  unversioned = λ h i. i;
}

pub flush-locked :
    (env : Env) (s : Buffer × Session)
    → (flush (session_host env) s).1.store.state.interaction_locked
      ≡ s.1.store.state.interaction_locked
flush-locked env s =
    flush-keeps (session_host env) _ (locked_at-IsKept env s.1.store.state.interaction_locked) s
      refl

pub clear_error-locked :
    (s : Store) → (clear_game_error s).state.interaction_locked ≡ s.state.interaction_locked
unfolding clear_game_error update
clear_error-locked s = ground arith

pub prune-locked :
    (v : Option ℕ) (s : Store)
    → (prune_stale_move_activity v s).state.interaction_locked ≡ s.state.interaction_locked
unfolding prune_stale_move_activity update
prune-locked none s = refl
prune-locked (some v) s = ground arith

-- The table is still locked, or a version newer than `c` came.
pub record IsHeld (c : ℕ) (s : Store) : Type 0 where
  pub held : (s.state.interaction_locked ≡ true) ⊎ ((v : ℕ) × (state_version s ≡ some v) × (c < v))

-- The same of a world.
pub record IsHeldIn (c : ℕ) (w : World) : Type 0 where
  pub store : IsHeld c w.session.store

pub if-IsHeldIn :
    (c : ℕ) (b : Bool) (w u : World) → IsHeldIn c w → IsHeldIn c u → IsHeldIn c (if b then w else u)
if-IsHeldIn c true w u h k = h
if-IsHeldIn c false w u h k = k

-- A table that is locked at a version.
abbrev pub IsLockedAt : ℕ → Store → Type 0
IsLockedAt c s = (s.state.interaction_locked ≡ true) × (state_version s ≡ some c)

pub locked-IsHeld : (c : ℕ) (s : Store) → s.state.interaction_locked ≡ true → IsHeld c s
locked-IsHeld c s locked = record { held = inl locked }

pub newer-IsHeld :
    (payload : MatchState) (v c : ℕ) (s : Store)
    → payload.version ≡ some v
    → IsLockedAt c s
    → IsHeld c (set_match_state_if_newer payload s)
unfolding set_match_state_if_newer update
newer-IsHeld payload v c s e (locked, has) =
    elim (Bool-cases (is_stale payload.version (version_of s.state.match_state))) [
      | inl stale ↦ record { held = inl (rw (stale, set_match_state_if_newer) locked) }
      | inr fresh ↦ record { held = inr (v, rw (fresh, set_match_state_if_newer) e, ground arith) }
    ]

pub flush-IsHeld :
    (env : Env) (c : ℕ) (s : Buffer × Session)
    → IsHeld c s.1.store
    → IsHeld c (flush (session_host env) s).1.store
flush-IsHeld env c s h = elim h.held [
  | inl locked ↦ record { held = inl (rw flush-locked locked) }
  | inr (v, known, newer) ↦ record { held = inr (v, rw flush-match_state known, newer) }
]

pub prune-IsHeld :
    (c : ℕ) (v : Option ℕ) (s : Store) → IsHeld c s → IsHeld c (prune_stale_move_activity v s)
prune-IsHeld c v s h = elim h.held [
  | inl locked ↦ record { held = inl (rw prune-locked locked) }
  | inr (u, known, newer) ↦ record { held = inr (u, rw prune-match_state known, newer) }
]

pub note_version-IsHeld :
    (env : Env) (c : ℕ) (v : Option ℕ) (w : World)
    → IsHeld c w.session.store
    → IsHeld c (note_version env v w).session.store
note_version-IsHeld env c none w h = h
note_version-IsHeld env c (some v) w h = prune-IsHeld c (some v) w.session.store h
