-- ===== src/Replay/Guards.antt =====
-- What a flush and an arriving move keep of the host's state: whatever publishing a move that is not
-- there yet keeps, and the counters keep.
use durak_card_game.Prelude.{
  if◌then◌else◌, ℕ, ◌≡◌, Bool, true, false, ◌||◌, Option, none, some, List, [], ◌∷◌, includes,
  Option-cases, Bool-cases, inl, inr,
}
use durak_card_game.EventId.{parse_version_from_event_id}
use durak_card_game.Replay.{
  BufferedMove, MoveApplied, Clock, Buffer, Host, settle, settle_version, flush_versions,
  flush_unversioned, flush_ready, flush_rest, publish_pending_replay_window, flush, buffer_move,
  handle_move_applied, id_of_payload, is_stale_event, version_lookup,
}

-- An invariant of the host that a new move, and the counters, keep.
pub record IsKept {H : Type 0} (host : Host H) (I : H → Type 0) : Type 0 where
  pub add :
      (m : BufferedMove) (h : H)
      → host.has_move_event_id m.event_id h ≡ false
      → I h
      → I (host.add_buffered_move m h)
  pub pending : (n k : ℕ) (h : H) → I h → I (host.update_pending n k h)
  pub duplicate : (h : H) → I h → I (host.inc_dropped_duplicate h)
  pub stale : (h : H) → I h → I (host.inc_dropped_stale h)
  pub flushed : (h : H) → I h → I (host.inc_flushed h)
  pub versioned : (h : H) → I h → I (host.inc_buffered_versioned h)
  pub unversioned : (h : H) → I h → I (host.inc_buffered_unversioned h)

module _ {H : Type 0} (host : Host H) (I : H → Type 0) (k : IsKept host I) where
  settle-keeps : (m : BufferedMove) (s : Buffer × H) → I s.1 → I (settle host m s).1
  unfolding settle
  settle-keeps m (b, h) i = elim (Bool-cases (includes b.seen_ids m.event_id)) [
    | inl seen ↦ rw (seen, settle) (k.duplicate h i)
    | inr unseen ↦ elim (Bool-cases (host.has_move_event_id m.event_id h)) [
      | inl there ↦ rw (unseen, there, settle) (k.duplicate h i)
      | inr new ↦ rw (unseen, new, settle) (k.flushed _ (k.add m h new i))
    ]
  ]

  settle_version-keeps : (v : ℕ) (s : Buffer × H) → I s.1 → I (settle_version host v s).1
  unfolding settle_version
  settle_version-keeps v (b, h) i = elim (Option-cases (version_lookup v b.pending_by_version)) [
    | inl absent ↦ rw (absent, settle_version) i
    | inr (m, found) ↦ rw (found, settle_version) (settle-keeps m _ i)
  ]

  flush_versions-keeps : (vs : List ℕ) (s : Buffer × H) → I s.1 → I (flush_versions host vs s).1
  unfolding flush_versions
  flush_versions-keeps [] s i = i
  flush_versions-keeps (v ∷ vs) s i = flush_versions-keeps vs _ (settle_version-keeps v s i)

  flush_unversioned-keeps :
      (ms : List BufferedMove) (s : Buffer × H) → I s.1 → I (flush_unversioned host ms s).1
  unfolding flush_unversioned
  flush_unversioned-keeps [] s i = i
  flush_unversioned-keeps (m ∷ ms) (b, h) i = flush_unversioned-keeps ms _ (settle-keeps m _ i)

  flush_ready-keeps : (c : Option ℕ) (s : Buffer × H) → I s.1 → I (flush_ready host c s).1
  unfolding flush_ready
  flush_ready-keeps none s i = i
  flush_ready-keeps (some c) (b, h) i = flush_versions-keeps _ (b, h) i

  window-keeps : (s : Buffer × H) → I s.1 → I (publish_pending_replay_window host s).1
  unfolding publish_pending_replay_window
  window-keeps (b, h) i = k.pending _ _ h i

  -- A flush keeps every such invariant.
  pub flush-keeps : (s : Buffer × H) → I s.1 → I (flush host s).1
  unfolding flush flush_rest
  flush-keeps (b, h) i =
      window-keeps _
        (flush_unversioned-keeps _ _ (flush_ready-keeps (host.get_current_version h) (b, h) i))

  buffer_move-keeps :
      (v : Option ℕ) (m : BufferedMove) (s : Buffer × H) → I s.1 → I (buffer_move host v m s).1
  unfolding buffer_move
  buffer_move-keeps none m (b, h) i = k.unversioned h i
  buffer_move-keeps (some v) m (b, h) i =
      elim (Option-cases (version_lookup v b.pending_by_version)) [
        | inl absent ↦ rw (absent, buffer_move) (k.versioned h i)
        | inr (n, found) ↦ rw (found, buffer_move) i
      ]

  if-keeps : (c : Bool) (s t : Buffer × H) → I s.1 → I t.1 → I (if c then s else t).1
  if-keeps true s t i j = i
  if-keeps false s t i j = j

  -- An arriving move keeps every such invariant.
  pub handle_move_applied-keeps :
      (p : MoveApplied) (clock : Clock) (s : Buffer × H)
      → I s.1
      → I (handle_move_applied host p clock s).1
  unfolding handle_move_applied
  handle_move_applied-keeps p clock (b, h) i =
      if-keeps
        (includes b.seen_ids (id_of_payload p clock)
          || host.has_move_event_id (id_of_payload p clock) h)
        _ _ (k.duplicate h i)
        (if-keeps
          (is_stale_event (parse_version_from_event_id p.event_id) (host.get_current_version h)) _ _
          (k.stale h i) (flush-keeps _ (window-keeps _ (buffer_move-keeps _ _ (b, h) i))))
