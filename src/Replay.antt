-- ===== src/Replay.antt =====
-- The buffer of moves that arrive before their state: src/processes/joinGameMoveReplayBuffer.ts.
-- The options that the factory takes are an interface `Host` over the state of whoever made the
-- buffer. A `Map` is an association list in order of insertion, a `Set` a list without repeats;
-- versions are exact natural numbers.
pub mod Memory
pub mod Pending
pub mod Guards
pub mod Due
pub mod Labels
use Prim.Native.String
use durak_card_game.Prelude.{
  ℕ, ◌+◌, String, Bool, true, false, not, ◌&&◌, ◌||◌, Option, none, some, List, [], ◌∷◌, ◌++◌, map,
  ◌==◌, leb, ltb, eqb, length, filter, includes, is_some, get_or, if◌then◌else◌,
}
use durak_card_game.EventId.{parse_version_from_event_id}

pub record BufferedMove : Type 0 where
  pub event_id : String
  pub player_id : String
  pub action : String
  pub card_id : Option String
  pub received_at : ℕ

-- the payload of a `move_applied` event
pub record MoveApplied : Type 0 where
  pub room_id : String
  pub match_id : String
  pub event_id : Option String
  pub player_id : String
  pub action : String
  pub card_id : Option String

-- `Date.now()`, and its decimal digits as the code pastes them into an id
pub record Clock : Type 0 where
  pub now : ℕ
  pub digits : String

-- `CreateJoinGameMoveReplayBufferOptions`, over the state `H` that the callbacks work on
pub record Host (H : Type 0) : Type 0 where
  pub get_current_version : H → Option ℕ
  pub has_move_event_id : String → H → Bool
  pub add_buffered_move : BufferedMove → H → H
  pub update_pending : ℕ → ℕ → H → H
  pub inc_dropped_duplicate : H → H
  pub inc_dropped_stale : H → H
  pub inc_flushed : H → H
  pub inc_buffered_versioned : H → H
  pub inc_buffered_unversioned : H → H

pub record Buffer : Type 0 where
  pub pending_by_version : List (ℕ × BufferedMove)
  pub pending_unversioned : List BufferedMove
  pub seen_ids : List String
  pub seen_queue : List String

abbrev pub empty_buffer : Buffer
empty_buffer = record {
  pending_by_version = [];
  pending_unversioned = [];
  seen_ids = [];
  seen_queue = [];
}

abbrev pub max_seen_move_ids : ℕ
max_seen_move_ids = 256

abbrev pub max_pending_unversioned : ℕ
max_pending_unversioned = 24

-- `array.shift()` on the rest of the array
abbrev pub shift {ℓ} : {A : Type ℓ} → List A → List A
shift [] = []
shift (x ∷ xs) = xs

-- `set.delete(stale)`, skipped for an empty text
abbrev pub forget_oldest : List String → List String → List String
forget_oldest [] ids = ids
forget_oldest (stale ∷ queue) ids =
    if stale == "" then ids else filter (λ id. not (id == stale)) ids

-- `rememberMoveEventId`
unfoldable pub remember_move_event_id : String → Buffer → Buffer
remember_move_event_id event_id b =
    if includes b.seen_ids event_id
    then b
    else let ids = b.seen_ids ++ event_id ∷ [] in
      let queue = b.seen_queue ++ event_id ∷ [] in
      if ltb max_seen_move_ids (length queue)
      then record b { seen_ids = forget_oldest queue ids; seen_queue = shift queue }
      else record b { seen_ids = ids; seen_queue = queue }

unfoldable pub version_lookup : ℕ → List (ℕ × BufferedMove) → Option BufferedMove
version_lookup v [] = none
version_lookup v ((k, m) ∷ rest) = if eqb k v then some m else version_lookup v rest

unfoldable pub version_delete : ℕ → List (ℕ × BufferedMove) → List (ℕ × BufferedMove)
version_delete v = filter (λ e. not (eqb e.0 v))

-- `.sort((left, right) => left - right)`
unfoldable pub insert_sorted : ℕ → List ℕ → List ℕ
insert_sorted v [] = v ∷ []
insert_sorted v (w ∷ ws) = let rest = insert_sorted v ws in if leb v w then v ∷ w ∷ ws else w ∷ rest

unfoldable pub sort : List ℕ → List ℕ
sort [] = []
sort (v ∷ vs) = insert_sorted v (sort vs)

unfoldable pub ready_versions : ℕ → List (ℕ × BufferedMove) → List ℕ
ready_versions current pending = sort (filter (λ v. leb v current) (map (λ e. e.0) pending))

-- `typeof eventVersion === "number" && typeof currentVersion === "number" && …`
abbrev pub is_stale_event : Option ℕ → Option ℕ → Bool
is_stale_event (some event) (some current) = leb event current
is_stale_event _ _ = false

abbrev pub id_of_payload : MoveApplied → Clock → String
id_of_payload p clock = get_or p.event_id (String.◌++◌ p.match_id (String.◌++◌ "-" clock.digits))

abbrev pub move_of_payload : MoveApplied → Clock → BufferedMove
move_of_payload p clock = record {
  event_id = id_of_payload p clock;
  player_id = p.player_id;
  action = p.action;
  card_id = p.card_id;
  received_at = clock.now;
}

module _ {H : Type 0} (host : Host H) where
  -- A step works on the buffer and on the host's state.
  abbrev pub State : Type 0
  State = Buffer × H

  unfoldable pub publish_pending_replay_window : State → State
  publish_pending_replay_window (b, h) =
      (b, host.update_pending (length b.pending_by_version) (length b.pending_unversioned) h)

  -- the body that both loops of `flush` share: a move is dropped as a duplicate, or published
  unfoldable pub settle : BufferedMove → State → State
  settle m (b, h) =
      if includes b.seen_ids m.event_id || host.has_move_event_id m.event_id h
      then (remember_move_event_id m.event_id b, host.inc_dropped_duplicate h)
      else (remember_move_event_id m.event_id b, host.inc_flushed (host.add_buffered_move m h))

  -- `for (const version of readyVersions)`
  unfoldable pub settle_version : ℕ → State → State
  settle_version v (b, h) = elim (version_lookup v b.pending_by_version) [
    | none ↦ (b, h)
    | some m ↦ settle m (record b { pending_by_version = version_delete v b.pending_by_version }, h)
  ]

  unfoldable pub flush_versions : List ℕ → State → State
  flush_versions [] s = s
  flush_versions (v ∷ vs) s = flush_versions vs (settle_version v s)

  -- `while (pendingUnversionedMoves.length > 0)`; nothing in the body adds to the array
  unfoldable pub flush_unversioned : List BufferedMove → State → State
  flush_unversioned [] s = s
  flush_unversioned (m ∷ rest) (b, h) =
      flush_unversioned rest (settle m (record b { pending_unversioned = rest }, h))

  unfoldable pub flush_ready : Option ℕ → State → State
  flush_ready none s = s
  flush_ready (some current) (b, h) =
      flush_versions (ready_versions current b.pending_by_version) (b, h)

  unfoldable pub flush_rest : State → State
  flush_rest (b, h) = flush_unversioned b.pending_unversioned (b, h)

  unfoldable pub flush : State → State
  flush (b, h) =
      publish_pending_replay_window (flush_rest (flush_ready (host.get_current_version h) (b, h)))

  -- where a new move waits
  unfoldable pub buffer_move : Option ℕ → BufferedMove → State → State
  buffer_move (some v) m (b, h) =
      if is_some (version_lookup v b.pending_by_version) then (b, h) else (
        record b { pending_by_version = b.pending_by_version ++ (v, m) ∷ [] },
        host.inc_buffered_versioned h,
      )
  buffer_move none m (b, h) =
      let queue = b.pending_unversioned ++ m ∷ [] in
      (
        record b {
          pending_unversioned =
              if ltb max_pending_unversioned (length queue) then shift queue else queue;
        },
        host.inc_buffered_unversioned h,
      )

  unfoldable pub handle_move_applied : MoveApplied → Clock → State → State
  handle_move_applied p clock (b, h) =
      if includes b.seen_ids (id_of_payload p clock)
        || host.has_move_event_id (id_of_payload p clock) h
      then (remember_move_event_id (id_of_payload p clock) b, host.inc_dropped_duplicate h)
      else if is_stale_event (parse_version_from_event_id p.event_id) (host.get_current_version h)
      then (remember_move_event_id (id_of_payload p clock) b, host.inc_dropped_stale h)
      else flush (
          publish_pending_replay_window
            (buffer_move (parse_version_from_event_id p.event_id) (move_of_payload p clock) (b, h)))
