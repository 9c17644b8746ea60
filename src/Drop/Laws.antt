-- ===== src/Drop/Laws.antt =====
-- What a drop can lead to.
use durak_card_game.Prelude.{String, ◌≡◌, ◌≢◌, ◌↔◌, true, false, Option, none, some, arith, eq_iff}
use durak_card_game.Card.{Card}
use durak_card_game.Match.{MatchState}
use durak_card_game.Play.Rules.{CanPlay}
use durak_card_game.Play.Laws.{can_play_card-CanPlay_iff}
use durak_card_game.Play.{PlayAction, Verdict, allow, can_play_card}
use durak_card_game.Drop.{
  Coord, DropZone, table, DropResult, accept, reject, reject_silent, valid, as_validation,
  is_valid_move, in_snap_range, detect_zone, validate_card_drop,
}
use durak_card_game.Drop

as_validation-valid_iff :
    (v : Verdict) (a : PlayAction) → (as_validation v ≡ valid a) ↔ (v ≡ allow a)
unfolding as_validation
as_validation-valid_iff v a = ground arith

-- Someone is known to play, in a match that is there, and the rules let the card through.
abbrev pub MayPlay : Card → Option MatchState → Option String → PlayAction → Type 0
MayPlay card (some s) (some me) a = (me ≢ "") × CanPlay card s me a
MayPlay card _ _ a = ⊥

known :
    (card : Card) (s : MatchState) (me : String) (a : PlayAction)
    → can_play_card card (some s) (some me) ≡ allow a
    → me ≢ ""
unfolding can_play_card
known card s me a h e = ground (arith, h, e, eq_iff me "")

can_play_card-MayPlay_iff :
    (card : Card) (state : Option MatchState) (user : Option String) (a : PlayAction)
    → (can_play_card card state user ≡ allow a) ↔ MayPlay card state user a
unfolding can_play_card
can_play_card-MayPlay_iff card none user a = (λ h. cc h, λ h. absurd h)
can_play_card-MayPlay_iff card (some s) none a = (λ h. cc h, λ h. absurd h)
can_play_card-MayPlay_iff card (some s) (some me) a = (
  λ h. (known card s me a h, (can_play_card-CanPlay_iff card s me a (known card s me a h)).0 h),
  λ (named, can). (can_play_card-CanPlay_iff card s me a named).1 can,
)

module _ (c : Coord) where
  open c use {Number, le, minus_snap, plus_snap}

  -- The point lies in the table's rectangle, widened on each side by the snap radius; there is no
  -- such point while the table is not on the screen.
  abbrev pub IsNear : Drop.Point c → Option (Drop.TableRect c) → Type 0
  IsNear p none = ⊥
  IsNear p (some r) =
      (le (minus_snap r.left) p.x ≡ true)
      × (le p.x (plus_snap r.right) ≡ true)
      × (le (minus_snap r.top) p.y ≡ true)
      × (le p.y (plus_snap r.bottom) ≡ true)

  detect_zone-IsNear_iff :
      (p : Drop.Point c) (rect : Option (Drop.TableRect c))
      → (detect_zone c p rect ≡ some table) ↔ IsNear p rect
  unfolding detect_zone in_snap_range
  detect_zone-IsNear_iff p none = (λ h. cc h, λ h. absurd h)
  detect_zone-IsNear_iff p (some r) = ground arith

  accept_iff :
      (ctx : Drop.DropContext c) (a : PlayAction) (id : String)
      → (validate_card_drop c ctx ≡ accept a id) ↔ (
          (ctx.interaction_locked ≡ false)
          × (detect_zone c ctx.position ctx.table_rect ≡ some table)
          × (ctx.card.id ≡ id)
          × (can_play_card ctx.card ctx.match_state ctx.current_user_id ≡ allow a))
  unfolding validate_card_drop is_valid_move
  accept_iff ctx a id = ground (
    arith,
    as_validation-valid_iff (can_play_card ctx.card ctx.match_state ctx.current_user_id) a,
  )

  -- A drop is accepted, with an action and a card, exactly when the table is not locked, the point
  -- lies in the rectangle of a table that is on the screen, widened by the snap radius, the card is
  -- the dropped one, the user and the match are known, and the rules let the user play the card with
  -- that action.
  pub validate_card_drop-accept_iff :
      (ctx : Drop.DropContext c) (a : PlayAction) (id : String)
      → (validate_card_drop c ctx ≡ accept a id) ↔ (
          (ctx.interaction_locked ≡ false)
          × IsNear ctx.position ctx.table_rect
          × (ctx.card.id ≡ id)
          × MayPlay ctx.card ctx.match_state ctx.current_user_id a)
  validate_card_drop-accept_iff ctx a id =
      let near = detect_zone-IsNear_iff ctx.position ctx.table_rect in
      let may = can_play_card-MayPlay_iff ctx.card ctx.match_state ctx.current_user_id a in
      let code = accept_iff ctx a id in
      (
        λ h.
            let (open_now, zone, same, allowed) = code.0 h in
            (open_now, near.0 zone, same, may.0 allowed),
        λ h.
            let (open_now, here, same, able) = h in
            code.1 (open_now, near.1 here, same, may.1 able),
      )

  -- A drop is ignored in silence exactly when the table is locked.
  pub validate_card_drop-silent_iff :
      (ctx : Drop.DropContext c)
      → (validate_card_drop c ctx ≡ reject_silent) ↔ (ctx.interaction_locked ≡ true)
  unfolding validate_card_drop
  validate_card_drop-silent_iff ctx = ground arith

  -- A point on the table itself is in the zone, whatever the snap radius adds.
  pub detect_zone_inside :
      (p : Drop.Point c) (r : Drop.TableRect c)
      → le r.left p.x ≡ true
      → le p.x r.right ≡ true
      → le r.top p.y ≡ true
      → le p.y r.bottom ≡ true
      → detect_zone c p (some r) ≡ some table
  unfolding detect_zone in_snap_range
  detect_zone_inside p r h₁ h₂ h₃ h₄ = rw (
    c.le_trans _ _ _ (c.minus_snap-le r.left) h₁,
    c.le_trans _ _ _ h₂ (c.le-plus_snap r.right),
    c.le_trans _ _ _ (c.minus_snap-le r.top) h₃,
    c.le_trans _ _ _ h₄ (c.le-plus_snap r.bottom),
  )

  -- A larger table catches every point that a smaller one catches.
  pub detect_zone_mono :
      (p : Drop.Point c) (r q : Drop.TableRect c)
      → le q.left r.left ≡ true
      → le r.right q.right ≡ true
      → le q.top r.top ≡ true
      → le r.bottom q.bottom ≡ true
      → detect_zone c p (some r) ≡ some table
      → detect_zone c p (some q) ≡ some table
  unfolding detect_zone in_snap_range
  detect_zone_mono p r q h₁ h₂ h₃ h₄ h = rw (
    c.le_trans _ (minus_snap r.left) p.x (c.minus_snap_mono _ _ h₁) (ground arith),
    c.le_trans p.x (c.plus_snap r.right) _ (ground arith) (c.plus_snap_mono _ _ h₂),
    c.le_trans _ (minus_snap r.top) p.y (c.minus_snap_mono _ _ h₃) (ground arith),
    c.le_trans p.y (c.plus_snap r.bottom) _ (ground arith) (c.plus_snap_mono _ _ h₄),
  )
