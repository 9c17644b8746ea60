-- ===== src/Replay/Due.antt =====
-- Which moves a flush shows: those whose version has come, and those without a version.
use mathlib.Core.Path.{subst}
use durak_card_game.Prelude.{
  ℕ, ◌≡◌, sym, true, ◌||◌, Option, none, some, List, [], ◌∷◌, map, arith, eqb, leb, filter, All,
  All-filter, includes, Option-cases, Bool-cases, inl, inr,
}
use durak_card_game.Replay.{
  BufferedMove, Buffer, Host, settle, settle_version, flush_versions, flush_unversioned,
  flush_ready, flush_rest, publish_pending_replay_window, flush, version_lookup, version_delete,
  insert_sorted, sort, ready_versions,
}
use durak_card_game.Replay.Pending.{settle_version-pending, flush_versions-pending}

-- An invariant of the host that a new move with `Q`, and the counters, keep.
pub record IsKeptFor {H : Type 0} (host : Host H) (Q : BufferedMove → Type 0) (I : H → Type 0)
    : Type 0 where
  pub add : (m : BufferedMove) (h : H) → Q m → I h → I (host.add_buffered_move m h)
  pub pending : (n k : ℕ) (h : H) → I h → I (host.update_pending n k h)
  pub duplicate : (h : H) → I h → I (host.inc_dropped_duplicate h)
  pub flushed : (h : H) → I h → I (host.inc_flushed h)

-- The moves whose version has come at `c` have `Q`.
abbrev pub Due : (BufferedMove → Type 0) → ℕ → List (ℕ × BufferedMove) → Type 0
Due Q c = All (λ e. leb e.0 c ≡ true → Q e.1)

head-found :
    (v k : ℕ) (n m : BufferedMove) (p : List (ℕ × BufferedMove))
    → eqb k v ≡ true
    → version_lookup v ((k, n) ∷ p) ≡ some m
    → n ≡ m
unfolding version_lookup
head-found v k n m p same e = ground arith

delete-Due :
    (Q : BufferedMove → Type 0) (c v : ℕ) (p : List (ℕ × BufferedMove))
    → Due Q c p
    → Due Q c (version_delete v p)
unfolding version_delete
delete-Due Q c v p d = All-filter _ _ p d

lookup-Due :
    (Q : BufferedMove → Type 0) (c v : ℕ) (m : BufferedMove) (p : List (ℕ × BufferedMove))
    → Due Q c p
    → leb v c ≡ true
    → version_lookup v p ≡ some m
    → Q m
unfolding version_lookup
lookup-Due Q c v m [] d h e = cc e
lookup-Due Q c v m ((k, n) ∷ p) (q, d) h e = elim (Bool-cases (eqb k v)) [
  | inl same ↦ subst Q (head-found v k n m p same e) (q (ground arith))
  | inr other ↦ lookup-Due Q c v m p d h (ground arith)
]

All-insert_sorted-leb :
    (c v : ℕ) (ws : List ℕ)
    → leb v c ≡ true
    → All (λ w. leb w c ≡ true) ws
    → All (λ w. leb w c ≡ true) (insert_sorted v ws)
unfolding insert_sorted
All-insert_sorted-leb c v [] h k = (h, tt)
All-insert_sorted-leb c v (w ∷ ws) h (k, ks) = elim (Bool-cases (leb v w)) [
  | inl le ↦ rw le (h, (k, ks))
  | inr gt ↦ rw gt (k, All-insert_sorted-leb c v ws h ks)
]

All-sort-leb :
    (c : ℕ) (ws : List ℕ) → All (λ w. leb w c ≡ true) ws → All (λ w. leb w c ≡ true) (sort ws)
unfolding sort
All-sort-leb c [] h = tt
All-sort-leb c (w ∷ ws) (h, hs) = All-insert_sorted-leb c w (sort ws) h (All-sort-leb c ws hs)

All-filter-leb : (c : ℕ) (ws : List ℕ) → All (λ w. leb w c ≡ true) (filter (λ w. leb w c) ws)
All-filter-leb c [] = tt
All-filter-leb c (w ∷ ws) = elim (Bool-cases (leb w c)) [
  | inl le ↦ rw le (le, All-filter-leb c ws)
  | inr gt ↦ rw gt (All-filter-leb c ws)
]

ready-leb : (c : ℕ) (p : List (ℕ × BufferedMove)) → All (λ v. leb v c ≡ true) (ready_versions c p)
unfolding ready_versions
ready-leb c p = All-sort-leb c _ (All-filter-leb c (map (λ e. e.0) p))

-- The same at a version that may be missing, where nothing with a version is due.
abbrev pub DueAt : (BufferedMove → Type 0) → Option ℕ → List (ℕ × BufferedMove) → Type 0
DueAt Q none p = Unit
DueAt Q (some c) p = Due Q c p

module _ {H : Type 0} (host : Host H) (Q : BufferedMove → Type 0) (I : H → Type 0)
    (k : IsKeptFor host Q I) where
  settle-keeps : (m : BufferedMove) (s : Buffer × H) → Q m → I s.1 → I (settle host m s).1
  unfolding settle
  settle-keeps m (b, h) q i =
      elim (Bool-cases (includes b.seen_ids m.event_id || host.has_move_event_id m.event_id h)) [
        | inl seen ↦ rw (seen, settle) (k.duplicate h i)
        | inr new ↦ rw (new, settle) (k.flushed _ (k.add m h q i))
      ]

  settle_version-keeps :
      (c v : ℕ) (s : Buffer × H)
      → leb v c ≡ true
      → Due Q c s.0.pending_by_version
      → I s.1
      → I (settle_version host v s).1 × Due Q c (settle_version host v s).0.pending_by_version
  unfolding settle_version
  settle_version-keeps c v (b, h) le d i =
      elim (Option-cases (version_lookup v b.pending_by_version)) [
        | inl absent ↦ rw (absent, settle_version) (i, d)
        | inr (m, found) ↦ (
          rw (found, settle_version)
              (settle-keeps m _ (lookup-Due Q c v m b.pending_by_version d le found) i),
          rw (settle_version-pending host v (b, h)).0 (delete-Due Q c v b.pending_by_version d),
        )
      ]

  flush_versions-keeps :
      (c : ℕ) (vs : List ℕ) (s : Buffer × H)
      → All (λ v. leb v c ≡ true) vs
      → Due Q c s.0.pending_by_version
      → I s.1
      → I (flush_versions host vs s).1
  unfolding flush_versions
  flush_versions-keeps c [] s le d i = i
  flush_versions-keeps c (v ∷ vs) s (le, les) d i =
      let (j, e) = settle_version-keeps c v s le d i in
      flush_versions-keeps c vs (settle_version host v s) les e j

  flush_unversioned-keeps :
      (ms : List BufferedMove) (s : Buffer × H)
      → All Q ms
      → I s.1
      → I (flush_unversioned host ms s).1
  unfolding flush_unversioned
  flush_unversioned-keeps [] s q i = i
  flush_unversioned-keeps (m ∷ ms) (b, h) (q, qs) i =
      flush_unversioned-keeps ms _ qs (settle-keeps m _ q i)

  flush_rest-keeps :
      (s : Buffer × H)
      → All Q s.0.pending_unversioned
      → I s.1
      → I (publish_pending_replay_window host (flush_rest host s)).1
  unfolding flush_rest publish_pending_replay_window
  flush_rest-keeps (b, h) q i =
      k.pending _ _ _ (flush_unversioned-keeps b.pending_unversioned (b, h) q i)

  -- What a flush keeps, where the waiting moves that are due have `Q`, and those without a version.
  pub flush-keeps-due :
      (b : Buffer) (h : H)
      → DueAt Q (host.get_current_version h) b.pending_by_version
      → All Q b.pending_unversioned
      → I h
      → I (flush host (b, h)).1
  unfolding flush flush_ready
  flush-keeps-due b h d q i = elim (Option-cases (host.get_current_version h)) [
    | inl unknown ↦ rw (unknown, flush, flush_ready) (flush_rest-keeps (b, h) q i)
    | inr (c, known) ↦
        let due = subst (λ o. DueAt Q o b.pending_by_version) known d in
        let ready = ready-leb c b.pending_by_version in
        rw (known, flush, flush_ready)
          (flush_rest-keeps (flush_versions host (ready_versions c b.pending_by_version) (b, h))
            (subst (All Q)
              (sym (flush_versions-pending host (ready_versions c b.pending_by_version) (b, h)).1)
              q)
            (flush_versions-keeps c (ready_versions c b.pending_by_version) (b, h) ready due i))
  ]
