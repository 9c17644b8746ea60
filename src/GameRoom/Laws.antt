-- ===== src/GameRoom/Laws.antt =====
-- The buttons of the room's page against the guards of their handlers, and its updates.
use mathlib.Core.Path.{subst}
use durak_card_game.Prelude.{
  ℕ, ◌≤◌, String, ◌≡◌, refl, Bool, true, false, not, ◌&&◌, ◌==◌, Option, none, some, [], ◌∷◌, ◌++◌,
  arith, eq_iff, leb, leb→le, length, same_text, Bool-cases, Option-cases, inl, inr, if◌then◌else◌,
}
use durak_card_game.Rooms.{Room, RawRoom, missing, Conversions, is_truthy, normalize_room}
use durak_card_game.Rooms.Laws.{IsNormal}
use durak_card_game.GameRoom.{
  Translate, RoomPage, Request, ready_room, start_room, confirm_stake_room, room_of, can_confirm,
  can_confirm_stake, can_start, confirm_ready, confirm_stake_of, handle_start, all_ready,
  players_count, with_id, on_room, on_room_update,
}

-- The page is that of a room that it knows, and the room came through `normalizeRoom`.
pub record IsAt (id : String) (r : Room) (p : RoomPage) : Type 0 where
  pub at : p.id ≡ some id
  pub named : (id == "") ≡ false
  pub known : room_of p ≡ some r
  pub normal : IsNormal r

two_players : (r : Room) → IsNormal r → leb 2 (players_count r) ≡ true → leb 2 r.players ≡ true
two_players r n h =
    let long : 2 ≤ length r.player_ids = leb→le 2 (length r.player_ids) h in
    rw (n.players (omega arith)) h

waiting_only :
    (o : Option String)
    → same_text o "waiting" ≡ true
    → same_text o "awaiting_stake_confirm" ≡ false
waiting_only none h = refl
waiting_only (some s) h = rw ((eq_iff s "waiting").0 h) refl

and_left : (a b : Bool) → (a && b) ≡ true → a ≡ true
and_left true b h = refl
and_left false b h = h

and_right : (a b : Bool) → (a && b) ≡ true → b ≡ true
and_right true b h = h
and_right false b h = cc h

on_known :
    {r : Room} {o : Option Room} (test : Room → Bool)
    → o ≡ some r
    → on_room o test ≡ true
    → test r ≡ true
on_known {r = r} test e h = subst (λ found. on_room found test ≡ true) e h

if_keeps : (b : Bool) (p q : RoomPage) → q ≡ p → (if b then p else q) ≡ p
if_keeps true p q h = refl
if_keeps false p q h = h

with_id-keeps :
    (p : RoomPage) (act : String → RoomPage)
    → ((id : String) → (id == "") ≡ false → act id ≡ p)
    → with_id p act ≡ p
with_id-keeps p act keep = kept p.id
  where
    kept :
        (o : Option String) → (elim o [ none ↦ p | some id ↦ if id == "" then p else act id ]) ≡ p
    kept none = refl
    kept (some id) = elim (Bool-cases (id == "")) [ inl e ↦ rw e | inr e ↦ rw e (keep id e) ]

-- The three buttons that ask the server for something.
pub data Button : Type 0 where
  be_ready pay_stake start : Button

abbrev pub enabled : Button → RoomPage → Bool
enabled be_ready = can_confirm
enabled pay_stake = can_confirm_stake
enabled start = can_start

abbrev pub busy : Button → RoomPage → Bool
busy be_ready p = p.is_ready_loading
busy pay_stake p = p.is_ready_loading
busy start p = p.is_start_loading

abbrev pub request : Button → String → Request
request be_ready = ready_room
request pay_stake = confirm_stake_room
request start = start_room

module _ (t : Translate) where
  abbrev pub press : Button → RoomPage → RoomPage
  press be_ready = confirm_ready t
  press pay_stake = confirm_stake_of t
  press start = handle_start t

  -- At a room that came through normalizeRoom, a button that the page enables is never refused by
  -- its handler, with no request of its kind under way: the request goes to the server, although
  -- the buttons count the listed players and the handlers read the number of players.
  pub enabled-requests :
      {id : String} {r : Room} (b : Button) (p : RoomPage)
      → IsAt id r p
      → enabled b p ≡ true
      → busy b p ≡ false
      → (press b p).requested ≡ p.requested ++ request b id ∷ []
  unfolding can_confirm can_confirm_stake can_start confirm_ready confirm_stake_of handle_start
  enabled-requests {r = r} be_ready p here h idle =
      let two : leb 2 (players_count r) ≡ true =
        and_left _ _ (and_right _ _ (on_known _ here.known h)) in
      let both : leb 2 r.players ≡ true = two_players r here.normal two in
      rw (here.known, both, idle, here.at, here.named)
  enabled-requests {r = r} pay_stake p here h idle =
      let due : same_text r.status "awaiting_stake_confirm" ≡ true =
        and_left _ _ (on_known _ here.known h) in
      rw (here.known, due, idle, here.at, here.named)
  enabled-requests {r = r} start p here h idle =
      let test = on_known _ here.known h in
      let late = and_right _ _ (and_right (same_text r.status "waiting") _ test) in
      let both : leb 2 r.players ≡ true =
        two_players r here.normal (and_right (all_ready r) _ late) in
      let ready : all_ready r ≡ true = and_left _ _ late in
      let quiet = waiting_only r.status (and_left _ _ test) in
      rw (here.known, quiet, both, ready, idle, here.at, here.named)

  -- A second press of a button, before the server has replied to the first, sends no request.
  pub press-press :
      (b : Button) (p : RoomPage) → (press b (press b p)).requested ≡ (press b p).requested
  unfolding confirm_ready confirm_stake_of handle_start room_of
  press-press be_ready p = ground (arith, Option-cases p.id)
  press-press pay_stake p = ground (arith, Option-cases p.id)
  press-press start p = ground (arith, Option-cases p.id)

  module _ (c : Conversions) (clock : ℕ) (raw : RawRoom) (p : RoomPage) where
    no_id : raw.id ≡ missing → (normalize_room c raw).id ≡ ""
    unfolding normalize_room
    no_id h = rw (h, c.to_text-text "")

    other_room :
        (id : String)
        → raw.id ≡ missing
        → (id == "") ≡ false
        → ((normalize_room c raw).id == id) ≡ false
    other_room id h named = rw (no_id h) (ground (arith, eq_iff "" id, eq_iff id ""))

    -- An update of a room that names the room by its field roomId alone, which the handler's first
    -- test lets through, changes nothing on the page.
    pub on_room_update-unnamed : raw.id ≡ missing → on_room_update t c clock raw p ≡ p
    unfolding on_room_update
    on_room_update-unnamed h = with_id-keeps p _ λ id named.
        if_keeps (not (is_truthy raw.id) && not (is_truthy raw.room_id)) p _
          (rw (other_room id h named))
