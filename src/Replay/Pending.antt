-- ===== src/Replay/Pending.antt =====
-- Which moves a flush settles, and in which order.
use durak_card_game.Prelude.{
  ℕ, ◌≤◌, String, ◌≡◌, refl, sym, ap, ◌∙◌, Bool, true, not, ◌&&◌, ◌||◌, none, some, List, [], ◌∷◌,
  map, arith, leb, ltb, eqb, any, filter, All, Option-cases, Bool-cases, inl, inr,
}
use durak_card_game.Replay.{
  BufferedMove, Buffer, Host, remember_move_event_id, version_lookup, version_delete, insert_sorted,
  sort, ready_versions, settle, settle_version, flush_versions, flush_unversioned, flush_ready,
  flush_rest, publish_pending_replay_window, flush,
}

abbrev Pending : Type 0
Pending = List (ℕ × BufferedMove)

abbrev key : ℕ × BufferedMove → ℕ
key e = e.0

-- Ascending.
abbrev pub IsSorted : List ℕ → Type 0
IsSorted [] = Unit
IsSorted (v ∷ vs) = All (λ w. v ≤ w) vs × IsSorted vs

All-insert_sorted :
    (lo v : ℕ) (ws : List ℕ)
    → lo ≤ v
    → All (λ w. lo ≤ w) ws
    → All (λ w. lo ≤ w) (insert_sorted v ws)
unfolding insert_sorted
All-insert_sorted lo v [] h k = (h, tt)
All-insert_sorted lo v (w ∷ ws) h (k, ks) = ground (arith, All-insert_sorted lo v ws h ks)

All-le_trans : (v w : ℕ) (ws : List ℕ) → v ≤ w → All (λ x. w ≤ x) ws → All (λ x. v ≤ x) ws
All-le_trans v w [] h k = tt
All-le_trans v w (x ∷ ws) h (k, ks) = (omega arith, All-le_trans v w ws h ks)

insert_sorted-IsSorted : (v : ℕ) (ws : List ℕ) → IsSorted ws → IsSorted (insert_sorted v ws)
unfolding insert_sorted
insert_sorted-IsSorted v [] h = (tt, tt)
insert_sorted-IsSorted v (w ∷ ws) (low, h) = elim (Bool-cases (leb v w)) [
  | inl le ↦ rw le ((ground arith, All-le_trans v w ws (ground arith) low), (low, h))
  | inr gt ↦ rw gt (All-insert_sorted w v ws (ground arith) low, insert_sorted-IsSorted v ws h)
]

sort-IsSorted : (vs : List ℕ) → IsSorted (sort vs)
unfolding sort
sort-IsSorted [] = tt
sort-IsSorted (v ∷ vs) = insert_sorted-IsSorted v (sort vs) (sort-IsSorted vs)

abbrev has : ℕ → List ℕ → Bool
has v = any (eqb v)

has-insert_sorted : (v w : ℕ) (ws : List ℕ) → has v (insert_sorted w ws) ≡ (eqb v w || has v ws)
unfolding insert_sorted
has-insert_sorted v w [] = refl
has-insert_sorted v w (x ∷ ws) = ground (arith, has-insert_sorted v w ws)

has-sort : (v : ℕ) (ws : List ℕ) → has v (sort ws) ≡ has v ws
unfolding sort
has-sort v [] = refl
has-sort v (w ∷ ws) = ground (arith, has-insert_sorted v w (sort ws), has-sort v ws)

has-filter : (v c : ℕ) (ws : List ℕ) → has v (filter (λ w. leb w c) ws) ≡ (leb v c && has v ws)
has-filter v c [] = ground arith
has-filter v c (w ∷ ws) = ground (arith, has-filter v c ws)

-- The ready versions are in ascending order, and a version is among them exactly if a move of that
-- version is pending and it is at most the current version.
pub ready_versions_lem :
    (current v : ℕ) (pending : List (ℕ × BufferedMove))
    → IsSorted (ready_versions current pending)
      × (any (eqb v) (ready_versions current pending)
          ≡ (leb v current && any (eqb v) (map (λ e. e.0) pending)))
unfolding ready_versions
ready_versions_lem current v pending =
    (sort-IsSorted _, has-sort v _ ∙ has-filter v current (map (λ e. e.0) pending))

-- A flush of the versions `vs` leaves the other ones.
abbrev without : List ℕ → Pending → Pending
without vs = filter (λ e. not (has e.0 vs))

delete-without :
    (v : ℕ) (vs : List ℕ) (p : Pending) → without vs (version_delete v p) ≡ without (v ∷ vs) p
unfolding version_delete
delete-without v vs [] = refl
delete-without v vs (e ∷ p) = ground (arith, delete-without v vs p)

pub delete-absent : (v : ℕ) (p : Pending) → version_lookup v p ≡ none → version_delete v p ≡ p
unfolding version_lookup version_delete
delete-absent v [] h = refl
delete-absent v ((k, m) ∷ p) h = ground (arith, delete-absent v p)

without-nil : (p : Pending) → without [] p ≡ p
without-nil [] = refl
without-nil (e ∷ p) = ap (◌∷◌ e) (without-nil p)

pub remember-pending :
    (id : String) (b : Buffer)
    → ((remember_move_event_id id b).pending_by_version ≡ b.pending_by_version)
      × ((remember_move_event_id id b).pending_unversioned ≡ b.pending_unversioned)
unfolding remember_move_event_id
remember-pending id b = ground arith

module _ {H : Type 0} (host : Host H) where
  pub settle-pending :
      (m : BufferedMove) (s : Buffer × H)
      → ((settle host m s).0.pending_by_version ≡ s.0.pending_by_version)
        × ((settle host m s).0.pending_unversioned ≡ s.0.pending_unversioned)
  unfolding settle
  settle-pending m (b, h) = ground (arith, remember-pending m.event_id b)

  pub settle_version-pending :
      (v : ℕ) (s : Buffer × H)
      → ((settle_version host v s).0.pending_by_version ≡ version_delete v s.0.pending_by_version)
        × ((settle_version host v s).0.pending_unversioned ≡ s.0.pending_unversioned)
  unfolding settle_version
  settle_version-pending v (b, h) = elim (Option-cases (version_lookup v b.pending_by_version)) [
    | inl absent ↦
        rw (absent, settle_version) (sym (delete-absent v b.pending_by_version absent), refl)
    | inr (m, found) ↦
        rw (found, settle_version)
          (settle-pending m
            (record b { pending_by_version = version_delete v b.pending_by_version }, h))
  ]

  pub flush_versions-pending :
      (vs : List ℕ) (s : Buffer × H)
      → ((flush_versions host vs s).0.pending_by_version ≡ without vs s.0.pending_by_version)
        × ((flush_versions host vs s).0.pending_unversioned ≡ s.0.pending_unversioned)
  unfolding flush_versions
  flush_versions-pending [] s = (sym (without-nil s.0.pending_by_version), refl)
  flush_versions-pending (v ∷ vs) s =
      let (left, rest) = flush_versions-pending vs (settle_version host v s) in
      let (deleted, same) = settle_version-pending v s in
      (left ∙ (ap (without vs) deleted ∙ delete-without v vs s.0.pending_by_version), rest ∙ same)

  flush_unversioned-pending :
      (ms : List BufferedMove) (s : Buffer × H)
      → s.0.pending_unversioned ≡ ms
      → ((flush_unversioned host ms s).0.pending_by_version ≡ s.0.pending_by_version)
        × ((flush_unversioned host ms s).0.pending_unversioned ≡ [])
  unfolding flush_unversioned
  flush_unversioned-pending [] s e = (refl, e)
  flush_unversioned-pending (m ∷ ms) (b, h) e =
      let (kept, queue) = settle-pending m (record b { pending_unversioned = ms }, h) in
      let (same, empty) =
        flush_unversioned-pending ms (settle host m (record b { pending_unversioned = ms }, h))
          queue in
      (same ∙ kept, empty)

-- Every key of `q` is one of `ks`.
AllIn : List ℕ → Pending → Type 0
AllIn ks = All (λ e. has e.0 ks ≡ true)

AllIn-cons : (k : ℕ) (ks : List ℕ) (q : Pending) → AllIn ks q → AllIn (k ∷ ks) q
unfolding AllIn
AllIn-cons k ks [] h = tt
AllIn-cons k ks (e ∷ q) (h, hs) = (ground arith, AllIn-cons k ks q hs)

AllIn-refl : (q : Pending) → AllIn (map (λ e. e.0) q) q
unfolding AllIn
AllIn-refl [] = tt
AllIn-refl (e ∷ q) = (ground arith, AllIn-cons e.0 (map (λ e. e.0) q) q (AllIn-refl q))

without-ready :
    (c : ℕ) (p q : Pending)
    → AllIn (map (λ e. e.0) p) q
    → without (ready_versions c p) q ≡ filter (λ e. ltb c e.0) q
unfolding AllIn
without-ready c p [] h = refl
without-ready c p (e ∷ q) (h, hs) =
    ground (arith, (ready_versions_lem c e.0 p).1, without-ready c p q hs)

-- After a flush at a version, exactly the moves of later versions wait, in the order in which they
-- came; without a version every versioned move waits. No move without a version is left.
pub flush-pending :
    {H : Type 0} (host : Host H) (b : Buffer) (h : H)
    → ((flush host (b, h)).0.pending_by_version ≡ elim (host.get_current_version h) [
      | none ↦ b.pending_by_version
      | some c ↦ filter (λ e. ltb c e.0) b.pending_by_version
    ])
      × ((flush host (b, h)).0.pending_unversioned ≡ [])
unfolding flush flush_ready flush_rest publish_pending_replay_window
flush-pending host b h = elim (Option-cases (host.get_current_version h)) [
  | inl unknown ↦ rw unknown (flush_unversioned-pending host b.pending_unversioned (b, h) refl)
  | inr (c, known) ↦
      let vs = ready_versions c b.pending_by_version in
      let s = flush_versions host vs (b, h) in
      let (left, rest) = flush_versions-pending host vs (b, h) in
      let (same, empty) = flush_unversioned-pending host s.0.pending_unversioned s refl in
      rw known (
        same
            ∙ (left
                ∙ without-ready c b.pending_by_version b.pending_by_version
                    (AllIn-refl b.pending_by_version)),
        empty,
      )
]
