-- ===== src/Tracker.antt =====
-- The counters of the replay: src/processes/replayDebug.ts. The build's settings are a record of
-- parameters, the thresholds read by `toNonNegativeInt`; the clock is an argument, and stands still
-- within one call. Console output is left out; the snapshots under `window` are kept by room.
pub mod Laws
use durak_card_game.Prelude.{
  ℕ, ◌+◌, ◌-◌, String, Bool, true, false, not, ◌&&◌, ◌||◌, Option, none, some, List, [], ◌∷◌, ◌==◌,
  ltb, leb, if◌then◌else◌,
}
use durak_card_game.Prelude.Int.{ℤ, pos, negsuc}

pub data SyncMode : Type 0 where
  replay snapshot noop : SyncMode

pub record Snapshot : Type 0 where
  pub room_id : String
  pub buffered_versioned : ℕ
  pub buffered_unversioned : ℕ
  pub flushed : ℕ
  pub dropped_duplicate : ℕ
  pub dropped_stale : ℕ
  pub pending_versioned : ℕ
  pub pending_unversioned : ℕ
  pub peak_pending_versioned : ℕ
  pub peak_pending_unversioned : ℕ
  pub sync_requests : ℕ
  pub sync_replay : ℕ
  pub sync_snapshot : ℕ
  pub sync_noop : ℕ
  pub last_state_version : Option ℕ
  pub warning_count : ℕ
  pub last_warning_at : Option ℕ
  pub updated_at : ℕ

-- `toNonNegativeInt`: the argument is the floor of `Number(value)`, `none` where that is not finite
unfoldable pub to_non_negative_int : Option ℤ → ℕ → ℕ
to_non_negative_int none fallback = fallback
to_non_negative_int (some (pos n)) fallback = n
to_non_negative_int (some (negsuc n)) fallback = fallback

-- `ENABLED`, with a window to write to, and the thresholds
pub record Settings : Type 0 where
  pub enabled : Bool
  pub warn_pending_versioned : ℕ
  pub warn_pending_unversioned : ℕ
  pub warn_dropped_duplicate : ℕ
  pub warn_dropped_stale : ℕ
  pub warn_interval_ms : ℕ

-- The settings where the environment says nothing of the thresholds.
unfoldable pub default_settings : Bool → Settings
unfolding to_non_negative_int
default_settings enabled = record {
  enabled = enabled;
  warn_pending_versioned = to_non_negative_int none 12;
  warn_pending_unversioned = to_non_negative_int none 6;
  warn_dropped_duplicate = to_non_negative_int none 16;
  warn_dropped_stale = to_non_negative_int none 10;
  warn_interval_ms = to_non_negative_int none 15000;
}

-- A tracker, and the snapshots that are published under `window`.
pub record Tracker : Type 0 where
  pub snapshot : Snapshot
  pub published : List (String × Snapshot)

unfoldable pub published_lookup : String → List (String × Snapshot) → Option Snapshot
published_lookup room [] = none
published_lookup room ((r, s) ∷ rest) = if r == room then some s else published_lookup room rest

-- `store[room] = snapshot`
unfoldable pub published_insert :
    String → Snapshot → List (String × Snapshot) → List (String × Snapshot)
published_insert room s [] = (room, s) ∷ []
published_insert room s ((r, t) ∷ rest) =
    if r == room then (room, s) ∷ rest else (r, t) ∷ published_insert room s rest

module _ (settings : Settings) where
  unfoldable pub has_any_warning_signal : Snapshot → Bool
  has_any_warning_signal s =
      leb settings.warn_pending_versioned s.pending_versioned
      || (leb settings.warn_pending_unversioned s.pending_unversioned
          || (leb settings.warn_dropped_duplicate s.dropped_duplicate
              || leb settings.warn_dropped_stale s.dropped_stale))

  -- the last warning is younger than the interval
  unfoldable pub warned_lately : Option ℕ → ℕ → Bool
  warned_lately none now = false
  warned_lately (some last) now = ltb now (last + settings.warn_interval_ms)

  unfoldable pub maybe_warn : ℕ → Snapshot → Snapshot
  maybe_warn now s =
      if not settings.enabled
      then s
      else if not (has_any_warning_signal s)
      then s
      else if warned_lately s.last_warning_at now
      then s
      else record s { last_warning_at = some now; warning_count = s.warning_count + 1 }

  -- `publish` after the counters of `next` were set
  unfoldable pub publish : ℕ → Snapshot → Tracker → Tracker
  publish now next t =
      let s = maybe_warn now (record next { updated_at = now }) in
      record t {
        snapshot = s;
        published =
            if settings.enabled then published_insert s.room_id s t.published else t.published;
      }

  abbrev pub fresh_snapshot : String → ℕ → Snapshot
  fresh_snapshot room_id now = record {
    room_id = room_id;
    buffered_versioned = 0;
    buffered_unversioned = 0;
    flushed = 0;
    dropped_duplicate = 0;
    dropped_stale = 0;
    pending_versioned = 0;
    pending_unversioned = 0;
    peak_pending_versioned = 0;
    peak_pending_unversioned = 0;
    sync_requests = 0;
    sync_replay = 0;
    sync_snapshot = 0;
    sync_noop = 0;
    last_state_version = none;
    warning_count = 0;
    last_warning_at = none;
    updated_at = now;
  }

  -- the constructor, over the snapshots that are there already
  unfoldable pub new_tracker : String → ℕ → List (String × Snapshot) → Tracker
  new_tracker room_id now published =
      publish now (fresh_snapshot room_id now)
        (record { snapshot = fresh_snapshot room_id now; published = published })

  unfoldable pub set_state_version : Option ℕ → ℕ → Tracker → Tracker
  set_state_version version now t =
      publish now (record (t.snapshot) { last_state_version = version }) t

  unfoldable pub inc_buffered_versioned : ℕ → Tracker → Tracker
  inc_buffered_versioned now t =
      publish now (record (t.snapshot) { buffered_versioned = t.snapshot.buffered_versioned + 1 }) t

  unfoldable pub inc_buffered_unversioned : ℕ → Tracker → Tracker
  inc_buffered_unversioned now t =
      publish now
        (record (t.snapshot) { buffered_unversioned = t.snapshot.buffered_unversioned + 1 }) t

  unfoldable pub inc_flushed : ℕ → Tracker → Tracker
  inc_flushed now t = publish now (record (t.snapshot) { flushed = t.snapshot.flushed + 1 }) t

  unfoldable pub inc_dropped_duplicate : ℕ → Tracker → Tracker
  inc_dropped_duplicate now t =
      publish now (record (t.snapshot) { dropped_duplicate = t.snapshot.dropped_duplicate + 1 }) t

  unfoldable pub inc_dropped_stale : ℕ → Tracker → Tracker
  inc_dropped_stale now t =
      publish now (record (t.snapshot) { dropped_stale = t.snapshot.dropped_stale + 1 }) t

  unfoldable pub inc_sync_request : ℕ → Tracker → Tracker
  inc_sync_request now t =
      publish now (record (t.snapshot) { sync_requests = t.snapshot.sync_requests + 1 }) t

  unfoldable pub count_sync : SyncMode → Snapshot → Snapshot
  count_sync replay s = record s { sync_replay = s.sync_replay + 1 }
  count_sync snapshot s = record s { sync_snapshot = s.sync_snapshot + 1 }
  count_sync noop s = record s { sync_noop = s.sync_noop + 1 }

  unfoldable pub mark_sync : SyncMode → ℕ → Tracker → Tracker
  mark_sync mode now t = publish now (count_sync mode t.snapshot) t

  abbrev pub peak : ℕ → ℕ → ℕ
  peak now_pending old = if ltb old now_pending then now_pending else old

  unfoldable pub update_pending : ℕ → ℕ → ℕ → Tracker → Tracker
  update_pending versioned unversioned now t =
      publish now
        (record (t.snapshot) {
          pending_versioned = versioned;
          pending_unversioned = unversioned;
          peak_pending_versioned = peak versioned t.snapshot.peak_pending_versioned;
          peak_pending_unversioned = peak unversioned t.snapshot.peak_pending_unversioned;
        })
        t

  unfoldable pub dispose : ℕ → Tracker → Tracker
  dispose now t =
      if settings.enabled
      then record t {
        published =
            published_insert t.snapshot.room_id (record (t.snapshot) { updated_at = now })
              t.published;
      }
      else t
