-- ===== src/Replay/Labels.antt =====
-- The waiting moves stand under the versions that their ids show.
use durak_card_game.Prelude.{
  ℕ, String, ◌≡◌, sym, Bool, true, false, ◌||◌, Option, none, some, List, [], ◌∷◌, arith, ltb,
  filter, All, All-filter, All-append, includes, is_some, if◌then◌else◌,
}
use durak_card_game.EventId.{parse_version_from_event_id, parse_move_version_from_event_id}
use durak_card_game.EventId.Laws.{readers_agree}
use durak_card_game.Store.Versions.{VersionLe}
use durak_card_game.Replay.{
  BufferedMove, MoveApplied, Clock, Buffer, Host, remember_move_event_id,
  publish_pending_replay_window, flush, buffer_move, handle_move_applied, shift, id_of_payload,
  move_of_payload, is_stale_event, version_lookup,
}
use durak_card_game.Replay.Pending.{remember-pending, flush-pending}
use durak_card_game.Replay.Due.{Due, DueAt}

-- The version that the id of a move shows.
abbrev pub label : BufferedMove → Option ℕ
label m = parse_move_version_from_event_id m.event_id

pub record IsLabelled (b : Buffer) : Type 0 where
  pub versioned : All (λ e. label e.1 ≡ some e.0) b.pending_by_version
  pub unversioned : All (λ m. label m ≡ none) b.pending_unversioned

-- A move that may be shown at a version.
abbrev pub MayShow : Option ℕ → BufferedMove → Type 0
MayShow v m = VersionLe (label m) v

labelled-Due :
    (c : ℕ) (p : List (ℕ × BufferedMove))
    → All (λ e. label e.1 ≡ some e.0) p
    → Due (MayShow (some c)) c p
labelled-Due c [] h = tt
labelled-Due c ((v, m) ∷ p) (e, h) = (λ le. rw e (ground arith), labelled-Due c p h)

pub labelled-DueAt :
    (v : Option ℕ) (p : List (ℕ × BufferedMove))
    → All (λ e. label e.1 ≡ some e.0) p
    → DueAt (MayShow v) v p
labelled-DueAt none p h = tt
labelled-DueAt (some c) p h = labelled-Due c p h

pub unlabelled-MayShow :
    (v : Option ℕ) (ms : List BufferedMove) → All (λ m. label m ≡ none) ms → All (MayShow v) ms
unlabelled-MayShow v [] h = tt
unlabelled-MayShow v (m ∷ ms) (e, h) = (rw e tt, unlabelled-MayShow v ms h)

same-IsLabelled :
    (b d : Buffer)
    → d.pending_by_version ≡ b.pending_by_version
    → d.pending_unversioned ≡ b.pending_unversioned
    → IsLabelled b
    → IsLabelled d
same-IsLabelled b d e f h = record {
  versioned = rw e h.versioned;
  unversioned = rw f h.unversioned;
}

waiting-after :
    (v : Option ℕ) (p q : List (ℕ × BufferedMove))
    → q ≡ elim v as (λ o. List (ℕ × BufferedMove)) [ none ↦ p | some c ↦ filter (λ e. ltb c e.0) p ]
    → All (λ e. label e.1 ≡ some e.0) p
    → All (λ e. label e.1 ≡ some e.0) q
waiting-after none p q e h = rw e h
waiting-after (some c) p q e h = rw e (All-filter _ (λ x. ltb c x.0) p h)

shift-All :
    (ms : List BufferedMove) → All (λ m. label m ≡ none) ms → All (λ m. label m ≡ none) (shift ms)
shift-All [] h = tt
shift-All (m ∷ ms) (e, h) = h

if-All :
    (b : Bool) (ms ns : List BufferedMove)
    → All (λ m. label m ≡ none) ms
    → All (λ m. label m ≡ none) ns
    → All (λ m. label m ≡ none) (if b then ms else ns)
if-All true ms ns h k = h
if-All false ms ns h k = k

pub label-payload :
    (p : MoveApplied) (id : String) (clock : Clock)
    → p.event_id ≡ some id
    → label (move_of_payload p clock) ≡ parse_version_from_event_id p.event_id
label-payload p id clock named = rw named (sym (readers_agree id))

module _ {H : Type 0} (host : Host H) where
  pub flush-IsLabelled : (s : Buffer × H) → IsLabelled s.0 → IsLabelled (flush host s).0
  flush-IsLabelled (b, h) l = record {
    versioned =
        waiting-after (host.get_current_version h) b.pending_by_version _ (flush-pending host b h).0
          l.versioned;
    unversioned = rw (flush-pending host b h).1 tt;
  }

  if-IsLabelled :
      (c : Bool) (s t : Buffer × H)
      → IsLabelled s.0
      → IsLabelled t.0
      → IsLabelled (if c then s else t).0
  if-IsLabelled true s t h k = h
  if-IsLabelled false s t h k = k

  pub buffer_move-IsLabelled :
      (v : Option ℕ) (m : BufferedMove) (s : Buffer × H)
      → label m ≡ v
      → IsLabelled s.0
      → IsLabelled (buffer_move host v m s).0
  unfolding buffer_move
  buffer_move-IsLabelled (some v) m (b, h) e l =
      if-IsLabelled (is_some (version_lookup v b.pending_by_version)) (b, h) _ l
        (record {
          versioned = All-append _ b.pending_by_version ((v, m) ∷ []) l.versioned (e, tt);
          unversioned = l.unversioned;
        })
  buffer_move-IsLabelled none m (b, h) e l = record {
    versioned = l.versioned;
    unversioned =
        let all =
          All-append (λ n. label n ≡ none) b.pending_unversioned (m ∷ []) l.unversioned (e, tt) in
        if-All _ _ _ (shift-All _ all) all;
  }

  remember-IsLabelled :
      (id : String) (b : Buffer) → IsLabelled b → IsLabelled (remember_move_event_id id b)
  remember-IsLabelled id b l =
      same-IsLabelled b _ (remember-pending id b).0 (remember-pending id b).1 l

  -- A move that comes with an id keeps the waiting moves under the versions of their ids.
  pub handle-IsLabelled :
      (p : MoveApplied) (id : String) (clock : Clock) (s : Buffer × H)
      → p.event_id ≡ some id
      → IsLabelled s.0
      → IsLabelled (handle_move_applied host p clock s).0
  unfolding handle_move_applied publish_pending_replay_window
  handle-IsLabelled p id clock (b, h) named l =
      if-IsLabelled
        (includes b.seen_ids (id_of_payload p clock)
          || host.has_move_event_id (id_of_payload p clock) h)
        _ _ (remember-IsLabelled _ b l)
        (if-IsLabelled
          (is_stale_event (parse_version_from_event_id p.event_id) (host.get_current_version h)) _ _
          (remember-IsLabelled _ b l)
          (flush-IsLabelled _ (
            buffer_move-IsLabelled _ (move_of_payload p clock) (b, h)
              (label-payload p id clock named) l)))
