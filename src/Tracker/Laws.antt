-- ===== src/Tracker/Laws.antt =====
-- What the counters and the published snapshots promise.
use durak_card_game.Prelude.{
  ℕ, ◌+◌, ◌≤◌, String, ◌≡◌, refl, ◌≢◌, inl, inr, true, false, Option, some, List, [], ◌∷◌, arith,
  eq_iff, Bool, Bool-cases, if◌then◌else◌,
}
use durak_card_game.Tracker.{
  Snapshot, Settings, SyncMode, Tracker, replay, snapshot, noop, published_lookup, published_insert,
  maybe_warn, publish, new_tracker, set_state_version, inc_buffered_versioned,
  inc_buffered_unversioned, inc_flushed, inc_dropped_duplicate, inc_dropped_stale, inc_sync_request,
  mark_sync, count_sync, update_pending, dispose, warned_lately, has_any_warning_signal,
}

-- What a session calls on its tracker, each with the time of the call.
pub data TrackerCall : Type 0 where
  state_version : Option ℕ → TrackerCall
  buffered_versioned buffered_unversioned flushed dropped_duplicate dropped_stale sync_request
        disposed :
      TrackerCall
  synced : SyncMode → TrackerCall
  pending : ℕ → ℕ → TrackerCall

unfoldable pub call : Settings → TrackerCall → ℕ → Tracker → Tracker
call settings (state_version v) = set_state_version settings v
call settings buffered_versioned = inc_buffered_versioned settings
call settings buffered_unversioned = inc_buffered_unversioned settings
call settings flushed = inc_flushed settings
call settings dropped_duplicate = inc_dropped_duplicate settings
call settings dropped_stale = inc_dropped_stale settings
call settings sync_request = inc_sync_request settings
call settings disposed = dispose settings
call settings (synced mode) = mark_sync settings mode
call settings (pending v u) = update_pending settings v u

-- The same counts, whatever the times of the last change.
abbrev pub SameCounts : Snapshot → Snapshot → Type 0
SameCounts s t = record s { updated_at = 0 } ≡ record t { updated_at = 0 }

-- The snapshot under the room's name has the present counts, and no count of waiting moves is above
-- its peak.
pub record IsHonest (settings : Settings) (t : Tracker) : Type 0 where
  pub shown :
      settings.enabled ≡ true
      → (s : Snapshot) × (published_lookup t.snapshot.room_id t.published ≡ some s)
        × SameCounts s t.snapshot
  pub versioned : t.snapshot.pending_versioned ≤ t.snapshot.peak_pending_versioned
  pub unversioned : t.snapshot.pending_unversioned ≤ t.snapshot.peak_pending_unversioned

lookup-insert :
    (room : String) (s : Snapshot) (l : List (String × Snapshot))
    → published_lookup room (published_insert room s l) ≡ some s
unfolding published_lookup published_insert
lookup-insert room s [] = ground (arith, eq_iff room room)
lookup-insert room s ((r, t) ∷ l) =
    ground (arith, eq_iff room room, eq_iff r room, lookup-insert room s l)

publish-shown :
    (settings : Settings) (at : ℕ) (next : Snapshot) (t : Tracker)
    → settings.enabled ≡ true
    → published_lookup
        (publish settings at next t).snapshot.room_id
        (publish settings at next t).published
      ≡ some (publish settings at next t).snapshot
unfolding publish
publish-shown settings at next t on = rw (on, publish) (lookup-insert _ _ t.published)

warn-counts :
    (settings : Settings) (at : ℕ) (s : Snapshot)
    → ((maybe_warn settings at s).pending_versioned ≡ s.pending_versioned)
      × ((maybe_warn settings at s).peak_pending_versioned ≡ s.peak_pending_versioned)
      × ((maybe_warn settings at s).pending_unversioned ≡ s.pending_unversioned)
      × ((maybe_warn settings at s).peak_pending_unversioned ≡ s.peak_pending_unversioned)
unfolding maybe_warn
warn-counts settings at s = ground arith

publish-IsHonest :
    (settings : Settings) (at : ℕ) (next : Snapshot) (t : Tracker)
    → next.pending_versioned ≤ next.peak_pending_versioned
    → next.pending_unversioned ≤ next.peak_pending_unversioned
    → IsHonest settings (publish settings at next t)
unfolding publish
publish-IsHonest settings at next t v u =
    let (a, b, c, d) = warn-counts settings at (record next { updated_at = at }) in
    record {
      shown = λ on. (_, publish-shown settings at next t on, refl);
      versioned = rw (a, b) v;
      unversioned = rw (c, d) u;
    }

abbrev disposed_at : ℕ → Tracker → Tracker
disposed_at at t = record t {
  published =
      published_insert t.snapshot.room_id (record (t.snapshot) { updated_at = at }) t.published;
}

if-IsHonest :
    (settings : Settings) (b : Bool) (t u : Tracker)
    → IsHonest settings t
    → IsHonest settings u
    → IsHonest settings (if b then t else u)
if-IsHonest settings true t u h k = h
if-IsHonest settings false t u h k = k

dispose-IsHonest :
    (settings : Settings) (at : ℕ) (t : Tracker)
    → IsHonest settings t
    → IsHonest settings (dispose settings at t)
unfolding dispose
dispose-IsHonest settings at t h =
    let gone : IsHonest settings (disposed_at at t) = record {
      shown = λ _. (_, lookup-insert t.snapshot.room_id _ t.published, refl);
      versioned = h.versioned;
      unversioned = h.unversioned;
    } in
    if-IsHonest settings settings.enabled _ t gone h

call-IsHonest :
    (settings : Settings) (c : TrackerCall) (at : ℕ) (t : Tracker)
    → IsHonest settings t
    → IsHonest settings (call settings c at t)
unfolding call set_state_version inc_buffered_versioned inc_buffered_unversioned inc_flushed
    inc_dropped_duplicate inc_dropped_stale inc_sync_request mark_sync count_sync update_pending
call-IsHonest settings (state_version v) at t h =
    publish-IsHonest settings at _ t h.versioned h.unversioned
call-IsHonest settings buffered_versioned at t h =
    publish-IsHonest settings at _ t h.versioned h.unversioned
call-IsHonest settings buffered_unversioned at t h =
    publish-IsHonest settings at _ t h.versioned h.unversioned
call-IsHonest settings flushed at t h = publish-IsHonest settings at _ t h.versioned h.unversioned
call-IsHonest settings dropped_duplicate at t h =
    publish-IsHonest settings at _ t h.versioned h.unversioned
call-IsHonest settings dropped_stale at t h =
    publish-IsHonest settings at _ t h.versioned h.unversioned
call-IsHonest settings sync_request at t h =
    publish-IsHonest settings at _ t h.versioned h.unversioned
call-IsHonest settings disposed at t h = dispose-IsHonest settings at t h
call-IsHonest settings (synced replay) at t h =
    publish-IsHonest settings at _ t h.versioned h.unversioned
call-IsHonest settings (synced snapshot) at t h =
    publish-IsHonest settings at _ t h.versioned h.unversioned
call-IsHonest settings (synced noop) at t h =
    publish-IsHonest settings at _ t h.versioned h.unversioned
call-IsHonest settings (pending v u) at t h =
    publish-IsHonest settings at _ t (ground arith) (ground arith)

new_tracker-IsHonest :
    (settings : Settings) (room_id : String) (at : ℕ) (published : List (String × Snapshot))
    → IsHonest settings (new_tracker settings room_id at published)
unfolding new_tracker
new_tracker-IsHonest settings room_id at published =
    publish-IsHonest settings at _ _ (omega arith) (omega arith)

unfoldable pub run_calls : Settings → List (TrackerCall × ℕ) → Tracker → Tracker
run_calls settings [] t = t
run_calls settings ((c, at) ∷ cs) t = run_calls settings cs (call settings c at t)

run-IsHonest :
    (settings : Settings) (cs : List (TrackerCall × ℕ)) (t : Tracker)
    → IsHonest settings t
    → IsHonest settings (run_calls settings cs t)
unfolding run_calls
run-IsHonest settings [] t h = h
run-IsHonest settings ((c, at) ∷ cs) t h =
    run-IsHonest settings cs _ (call-IsHonest settings c at t h)

-- After a tracker was made and any of its public calls on it, disposing included, the snapshot under
-- the room's name has the tracker's present values if tracking is on, the time of the last change
-- apart, which disposing sets anew in the published one alone; and the numbers of waiting moves are
-- at most their peaks.
pub tracker-IsHonest :
    (settings : Settings) (room_id : String) (at : ℕ) (published : List (String × Snapshot))
    (cs : List (TrackerCall × ℕ))
    → IsHonest settings (run_calls settings cs (new_tracker settings room_id at published))
tracker-IsHonest settings room_id at published cs =
    run-IsHonest settings cs _ (new_tracker-IsHonest settings room_id at published)

interval_passed :
    (settings : Settings) (s : Snapshot) (last at : ℕ)
    → s.last_warning_at ≡ some last
    → warned_lately settings s.last_warning_at at ≡ false
    → last + settings.warn_interval_ms ≤ at
unfolding warned_lately
interval_passed settings s last at e h = ground (arith, e)

-- Where a warning was given before, another one is counted only if tracking is on, a threshold is
-- reached and the last warning is at least the interval old.
pub maybe_warn-counts :
    (settings : Settings) (at last : ℕ) (s : Snapshot)
    → s.last_warning_at ≡ some last
    → (maybe_warn settings at s).warning_count ≢ s.warning_count
    → (settings.enabled ≡ true)
      × (has_any_warning_signal settings s ≡ true)
      × (last + settings.warn_interval_ms ≤ at)
unfolding maybe_warn
maybe_warn-counts settings at last s e changed = elim (Bool-cases settings.enabled) [
  | inr off ↦ absurd (changed (ground arith))
  | inl on ↦ elim (Bool-cases (has_any_warning_signal settings s)) [
    | inr quiet ↦ absurd (changed (ground arith))
    | inl loud ↦ elim (Bool-cases (warned_lately settings s.last_warning_at at)) [
      | inl lately ↦ absurd (changed (ground arith))
      | inr long_ago ↦ (on, loud, interval_passed settings s last at e long_ago)
    ]
  ]
]
