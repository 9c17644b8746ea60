-- ===== src/Replay/Memory.antt =====
-- The memory of the ids of moves that were settled.
use durak_card_game.Prelude.{
  ◌≤◌, ◌<◌, String, ◌≡◌, refl, ◌≢◌, true, false, not, ◌&&◌, ◌||◌, List, [], ◌∷◌, ◌++◌, ◌==◌, eq_iff,
  arith, includes, length, length-append, filter, Bool-cases, inl, inr, ltb,
}
use durak_card_game.Replay.{Buffer, remember_move_event_id, forget_oldest, shift, max_seen_move_ids}

-- No text twice.
abbrev pub NoRepeat : List String → Type 0
NoRepeat [] = Unit
NoRepeat (x ∷ xs) = (includes xs x ≡ false) × NoRepeat xs

-- The queue is the set in order of arrival, but for the empty text, which the set never forgets.
pub record IsTidy (ids queue : List String) : Type 0 where
  pub bounded : length queue ≤ max_seen_move_ids
  pub no_repeat : NoRepeat queue
  pub queued : (id : String) → id ≢ "" → includes ids id ≡ true → includes queue id ≡ true
  pub known : (id : String) → includes queue id ≡ true → includes ids id ≡ true

includes-append :
    (xs ys : List String) (s : String) → includes (xs ++ ys) s ≡ (includes xs s || includes ys s)
includes-append [] ys s = refl
includes-append (x ∷ xs) ys s = ground (arith, includes-append xs ys s)

includes-filter_ne :
    (xs : List String) (stale s : String)
    → includes (filter (λ id. not (id == stale)) xs) s ≡ (includes xs s && not (s == stale))
includes-filter_ne [] stale s = refl
includes-filter_ne (x ∷ xs) stale s =
    ground (arith, eq_iff x stale, eq_iff x s, eq_iff s stale, includes-filter_ne xs stale s)

NoRepeat-append :
    (xs : List String) (s : String) → NoRepeat xs → includes xs s ≡ false → NoRepeat (xs ++ s ∷ [])
NoRepeat-append [] s h new = (refl, tt)
NoRepeat-append (x ∷ xs) s (h, hs) new = (
  ground (arith, includes-append xs (s ∷ []) x, eq_iff s x, eq_iff x s),
  NoRepeat-append xs s hs (ground arith),
)

not_queued :
    {ids queue : List String} (id : String)
    → IsTidy ids queue
    → includes ids id ≡ false
    → includes queue id ≡ false
not_queued {ids} {queue} id w new = elim (Bool-cases (includes queue id)) [
  | inl there ↦ cc (w.known id there)
  | inr gone ↦ gone
]

module _ (ids queue : List String) (id : String) (w : IsTidy ids queue)
    (new : includes ids id ≡ false) where
  push-IsTidy :
      length (queue ++ id ∷ []) ≤ max_seen_move_ids → IsTidy (ids ++ id ∷ []) (queue ++ id ∷ [])
  push-IsTidy short = record {
    bounded = short;
    no_repeat = NoRepeat-append queue id w.no_repeat (not_queued id w new);
    queued = λ s other h. ground (
      arith,
      includes-append ids (id ∷ []) s,
      includes-append queue (id ∷ []) s,
      w.queued s other,
    );
    known = λ s h.
        ground
          (arith, includes-append ids (id ∷ []) s, includes-append queue (id ∷ []) s, w.known s);
  }

-- The queue is full, and its oldest id goes.
shift-IsTidy :
    (ids : List String) (stale : String) (queue : List String)
    → NoRepeat (stale ∷ queue)
    → length queue ≤ max_seen_move_ids
    → ((id : String) → id ≢ "" → includes ids id ≡ true → includes (stale ∷ queue) id ≡ true)
    → ((id : String) → includes (stale ∷ queue) id ≡ true → includes ids id ≡ true)
    → IsTidy (forget_oldest (stale ∷ queue) ids) queue
shift-IsTidy ids stale queue (once, rest) short queued known = record {
  bounded = short;
  no_repeat = rest;
  queued = λ s other h. ground (
    arith,
    includes-filter_ne ids stale s,
    eq_iff s stale,
    eq_iff stale s,
    eq_iff stale "",
    queued s other,
  );
  known = λ s h. ground (
    arith,
    includes-filter_ne ids stale s,
    eq_iff s stale,
    eq_iff stale s,
    eq_iff stale "",
    known s,
  );
}

abbrev pub Tidy : Buffer → Type 0
Tidy b = IsTidy b.seen_ids b.seen_queue

shifted-IsTidy :
    (ids queue : List String) (id : String)
    → IsTidy ids queue
    → includes ids id ≡ false
    → max_seen_move_ids < length (queue ++ id ∷ [])
    → IsTidy (forget_oldest (queue ++ id ∷ []) (ids ++ id ∷ [])) (shift (queue ++ id ∷ []))
shifted-IsTidy ids [] id w new long = absurd (omega arith)
shifted-IsTidy ids (stale ∷ queue) id w new long =
    shift-IsTidy (ids ++ id ∷ []) stale (queue ++ id ∷ [])
      (NoRepeat-append (stale ∷ queue) id w.no_repeat (not_queued id w new))
      (omega (arith, w.bounded, length-append queue (id ∷ [])))
      (λ s other h. ground (
        arith,
        includes-append ids (id ∷ []) s,
        includes-append queue (id ∷ []) s,
        w.queued s other,
      ))
      (λ s h.
        ground
          (arith, includes-append ids (id ∷ []) s, includes-append queue (id ∷ []) s, w.known s))

-- A new id is not the oldest of the queue, and so it stays in the set when that one goes.
kept_new :
    (ids queue : List String) (id : String)
    → IsTidy ids queue
    → includes ids id ≡ false
    → max_seen_move_ids < length (queue ++ id ∷ [])
    → includes (forget_oldest (queue ++ id ∷ []) (ids ++ id ∷ [])) id ≡ true
kept_new ids [] id w new long = absurd (omega arith)
kept_new ids (stale ∷ queue) id w new long = ground (
  arith,
  includes-append ids (id ∷ []) id,
  includes-filter_ne (ids ++ id ∷ []) stale id,
  eq_iff id id,
  eq_iff id stale,
  eq_iff stale stale,
  w.known stale,
)

remembered :
    (id : String) (b : Buffer) → Tidy b → includes (remember_move_event_id id b).seen_ids id ≡ true
unfolding remember_move_event_id
remembered id b w = elim (Bool-cases (includes b.seen_ids id)) [
  | inl old ↦ rw (old, remember_move_event_id) old
  | inr new ↦ elim (Bool-cases (ltb max_seen_move_ids (length (b.seen_queue ++ id ∷ [])))) [
    | inl long ↦
        rw (new, long, remember_move_event_id)
          (kept_new b.seen_ids b.seen_queue id w new (ground arith))
    | inr short ↦
        rw (new, short, remember_move_event_id)
          (ground (arith, includes-append b.seen_ids (id ∷ []) id, eq_iff id id))
  ]
]

remember-IsTidy : (id : String) (b : Buffer) → Tidy b → Tidy (remember_move_event_id id b)
unfolding remember_move_event_id
remember-IsTidy id b w = elim (Bool-cases (includes b.seen_ids id)) [
  | inl old ↦ rw (old, remember_move_event_id) w
  | inr new ↦ elim (Bool-cases (ltb max_seen_move_ids (length (b.seen_queue ++ id ∷ [])))) [
    | inl long ↦
        rw (new, long, remember_move_event_id)
          (shifted-IsTidy b.seen_ids b.seen_queue id w new (ground arith))
    | inr short ↦
        rw (new, short, remember_move_event_id)
          (push-IsTidy b.seen_ids b.seen_queue id w new (ground arith))
  ]
]

-- After remembering an id, the set has it, and this is kept: the queue has at most 256 ids, none of them twice; each id in the
-- queue is in the set; and each id in the set is in the queue, except that the set may keep the
-- empty text, which it never forgets.
pub remember-Tidy :
    (id : String) (b : Buffer)
    → Tidy b
    → (includes (remember_move_event_id id b).seen_ids id ≡ true)
      × Tidy (remember_move_event_id id b)
remember-Tidy id b w = (remembered id b w, remember-IsTidy id b w)
