-- ===== src/Join/Shown.antt =====
-- The versions of the moves that are shown, through the operations of the store and the replay.
use durak_card_game.Prelude.{
  ℕ, String, ◌≡◌, Bool, true, false, Option, none, some, List, [], ◌∷◌, Bool-cases, inl, inr, ◌||◌,
  if◌then◌else◌,
}
use mathlib.Core.Path.{subst}
use durak_card_game.Match.{MatchState}
use durak_card_game.Store.{Store, is_stale, add_activity_item, update}
use durak_card_game.Replay.{Buffer, flush, MoveApplied}
use durak_card_game.Join.State.{Env, Session, session_host}
use durak_card_game.Prelude.{
  includes, ◌||◌, Option-cases, truthy, arith, sym, All, All-append, All-drop, All-filter, leb,
  length, ◌-◌, ◌++◌, refl,
}
use durak_card_game.EventId.{parse_move_version_from_event_id}
use durak_card_game.Store.{
  ActivityItem, system, set_match_state_if_newer, move, is_fresh, stale_activity_version_window,
  activity_limit, push_activity, clear_game_error, prune_stale_move_activity, version_of, is_stale,
}
use durak_card_game.Store.Activity.{prune-filter}
use durak_card_game.Store.Versions.{VersionLe, VersionLe-trans}
use durak_card_game.Replay.{
  Clock, handle_move_applied, BufferedMove, buffer_move, version_lookup,
  publish_pending_replay_window, id_of_payload, is_stale_event, move_of_payload,
}
use durak_card_game.Join.State.{session_version}
use durak_card_game.EventId.{parse_version_from_event_id}
use durak_card_game.Replay.Due.{IsKeptFor, DueAt, flush-keeps-due}
use durak_card_game.Replay.Labels.{
  IsLabelled, MayShow, labelled-DueAt, unlabelled-MayShow, buffer_move-IsLabelled, label-payload,
}

-- The version that an item of the activity shows.
abbrev pub shown_version : ActivityItem → Option ℕ
shown_version (move m) = parse_move_version_from_event_id m.event_id
shown_version (system message at) = none

-- No item shows a version above `v`.
abbrev pub ShownBy : Option ℕ → List ActivityItem → Type 0
ShownBy v = All (λ i. VersionLe (shown_version i) v)

pub raise :
    (v u : Option ℕ) (items : List ActivityItem) → VersionLe v u → ShownBy v items → ShownBy u items
raise v u [] le h = tt
raise v u (i ∷ items) le (k, h) = (VersionLe-trans (shown_version i) v u k le, raise v u items le h)

pub push-ShownBy :
    (v : Option ℕ) (i : ActivityItem) (items : List ActivityItem)
    → VersionLe (shown_version i) v
    → ShownBy v items
    → ShownBy v (push_activity i items)
unfolding push_activity
push-ShownBy v i items le h =
    All-drop (λ j. VersionLe (shown_version j) v) (length (items ++ i ∷ []) - activity_limit)
      (items ++ i ∷ []) (All-append _ items (i ∷ []) h (le, tt))

pub record IsShownBy (v : Option ℕ) (s : Store) : Type 0 where
  pub shown : ShownBy v s.state.activity

pub if-IsShownBy :
    (v : Option ℕ) (b : Bool) (s t : Store)
    → IsShownBy v s
    → IsShownBy v t
    → IsShownBy v (if b then s else t)
if-IsShownBy v true s t h k = h
if-IsShownBy v false s t h k = k

pub clear_error-IsShownBy :
    (v : Option ℕ) (s : Store) → IsShownBy v s → IsShownBy v (clear_game_error s)
unfolding clear_game_error update
clear_error-IsShownBy v s h =
    if-IsShownBy v (truthy s.state.error) _ s (record { shown = h.shown }) h

pub newer-IsShownBy :
    (v : Option ℕ) (payload : MatchState) (s : Store)
    → IsShownBy v s
    → IsShownBy v (set_match_state_if_newer payload s)
unfolding set_match_state_if_newer update
newer-IsShownBy v payload s h =
    if-IsShownBy v (is_stale payload.version (version_of s.state.match_state)) s _ h
      (record { shown = h.shown })

pub prune-IsShownBy :
    (v u : Option ℕ) (s : Store) → IsShownBy v s → IsShownBy v (prune_stale_move_activity u s)
unfolding prune_stale_move_activity update
prune-IsShownBy v none s h = h
prune-IsShownBy v (some u) s h = elim (Bool-cases (leb u 0)) [
  | inl zero ↦ rw (zero, prune_stale_move_activity) h
  | inr positive ↦ record {
    shown =
        subst (ShownBy v) (sym (prune-filter u s (ground arith)))
          (All-filter _ (is_fresh (u - stale_activity_version_window)) s.state.activity h.shown);
  }
]

-- A session at version `v` whose activity shows no later one.
pub record IsAt (v : Option ℕ) (s : Session) : Type 0 where
  pub at : session_version s ≡ v
  pub shown : ShownBy v s.store.state.activity

pub moves-IsKeptFor : (env : Env) (v : Option ℕ) → IsKeptFor (session_host env) (MayShow v) (IsAt v)
unfolding add_activity_item update
moves-IsKeptFor env v = record {
  add = λ m h q i. record {
    at = i.at;
    shown =
        push-ShownBy v
          (move (record {
            event_id = m.event_id;
            player_id = m.player_id;
            action = m.action;
            card_id = m.card_id;
            timestamp = m.received_at;
          }))
          h.store.state.activity q i.shown;
  };
  pending = λ n k h i. record { at = i.at; shown = i.shown };
  duplicate = λ h i. record { at = i.at; shown = i.shown };
  flushed = λ h i. record { at = i.at; shown = i.shown };
}

pub flush-IsAt :
    (env : Env) (v : Option ℕ) (s : Buffer × Session)
    → IsLabelled s.0
    → IsAt v s.1
    → IsAt v (flush (session_host env) s).1
flush-IsAt env v (b, s) l i =
    flush-keeps-due (session_host env) (MayShow v) (IsAt v) (moves-IsKeptFor env v) b s
      (subst (λ o. DueAt (MayShow v) o b.pending_by_version) (sym i.at)
        (labelled-DueAt v b.pending_by_version l.versioned))
      (unlabelled-MayShow v b.pending_unversioned l.unversioned) i

pub flush-InStep :
    (env : Env) (s : Buffer × Session)
    → IsLabelled s.0
    → IsShownBy (session_version s.1) s.1.store
    → IsShownBy
        (session_version (flush (session_host env) s).1)
        (flush (session_host env) s).1.store
flush-InStep env (b, s) l h =
    let i = flush-IsAt env (session_version s) (b, s) l (record { at = refl; shown = h.shown }) in
    record {
      shown =
          subst (λ v. ShownBy v (flush (session_host env) (b, s)).1.store.state.activity) (sym i.at)
            i.shown;
    }

pub buffer_move-IsAt :
    (env : Env) (v w : Option ℕ) (m : BufferedMove) (b : Buffer) (s : Session)
    → IsAt v s
    → IsAt v (buffer_move (session_host env) w m (b, s)).1
unfolding buffer_move
buffer_move-IsAt env v none m b s i = record { at = i.at; shown = i.shown }
buffer_move-IsAt env v (some w) m b s i =
    elim (Option-cases (version_lookup w b.pending_by_version)) [
      | inl absent ↦ rw (absent, buffer_move) (record { at = i.at; shown = i.shown })
      | inr (n, found) ↦ rw (found, buffer_move) i
    ]

pub if-IsAt :
    (v : Option ℕ) (c : Bool) (s t : Buffer × Session)
    → IsAt v s.1
    → IsAt v t.1
    → IsAt v (if c then s else t).1
if-IsAt v true s t h k = h
if-IsAt v false s t h k = k

pub handle-IsAt :
    (env : Env) (v : Option ℕ) (p : MoveApplied) (id : String) (clock : Clock)
    (s : Buffer × Session)
    → p.event_id ≡ some id
    → IsLabelled s.0
    → IsAt v s.1
    → IsAt v (handle_move_applied (session_host env) p clock s).1
unfolding handle_move_applied publish_pending_replay_window
handle-IsAt env v p id clock (b, s) named l i =
    if-IsAt v
      (includes b.seen_ids (id_of_payload p clock)
        || (session_host env).has_move_event_id (id_of_payload p clock) s)
      _ _ (record { at = i.at; shown = i.shown })
      (if-IsAt v (is_stale_event (parse_version_from_event_id p.event_id) (session_version s)) _ _
        (record { at = i.at; shown = i.shown })
        (flush-IsAt env v _
          (buffer_move-IsLabelled (session_host env) _ (move_of_payload p clock) (b, s)
            (label-payload p id clock named) l)
          (record {
            at = (buffer_move-IsAt env v _ (move_of_payload p clock) b s i).at;
            shown = (buffer_move-IsAt env v _ (move_of_payload p clock) b s i).shown;
          })))
