-- ===== src/Selectors/Seats.antt =====
-- The order of the seats round the table.
use native.Mathlib.Nat.{zero-add}
use mathlib.Core.Path.{subst}
use mathlib.Core.List.{Perm, perm_append_comm, append-nil}
use durak_card_game.Prelude.{
  sym, ap, ◌∙◌, take-append-drop, ℕ, suc, ◌+◌, ◌≤◌, ◌<◌, String, ◌≡◌, refl, ◌≢◌, inl, inr, true,
  Option, none, some, List, [], ◌∷◌, ◌++◌, ◌==◌, arith, eq_iff, any, length, drop, take, leb,
  Bool-cases,
}
use durak_card_game.Prelude.Int.{ℤ, pos, negsuc}
use durak_card_game.Match.{MatchState, Seat}
use durak_card_game.Store.{GameState}
use durak_card_game.Selectors.Ordered.{
  find_index, own_index, rotate_to, seats_of, select_ordered_seats,
}

-- The seats from the `i`-th on, then those before it.
abbrev pub IsRotation : List Seat → List Seat → Type 0
IsRotation seats ordered = (i : ℕ) × (i ≤ length seats) × (ordered ≡ drop i seats ++ take i seats)

IsRotation-refl : (seats : List Seat) → IsRotation seats seats
IsRotation-refl seats = (0, omega arith, sym (append-nil seats))

rotate_to-IsRotation : (i : ℤ) (seats : List Seat) → IsRotation seats (rotate_to i seats)
unfolding rotate_to
rotate_to-IsRotation (negsuc n) seats = IsRotation-refl seats
rotate_to-IsRotation (pos i) seats = elim (Bool-cases (leb (length seats) i)) [
  | inl out ↦ rw out (IsRotation-refl seats)
  | inr within ↦ rw within (i, ground arith, refl)
]

-- The seats that are shown are those of the match, in the same order round the table.
pub select_ordered_seats-IsRotation :
    (state : GameState) (user : Option String) (ms : MatchState)
    → state.match_state ≡ some ms
    → IsRotation (seats_of ms) (select_ordered_seats state user)
unfolding select_ordered_seats
select_ordered_seats-IsRotation state user ms there =
    rw there (rotate_to-IsRotation (own_index ms.my_seat_index user (seats_of ms)) (seats_of ms))

-- Nobody is left out or shown twice.
pub select_ordered_seats-perm :
    (state : GameState) (user : Option String) (ms : MatchState)
    → state.match_state ≡ some ms
    → Perm (select_ordered_seats state user) (seats_of ms)
select_ordered_seats-perm state user ms there =
    let (i, within, e) = select_ordered_seats-IsRotation state user ms there in
    rw e (
      subst (λ xs. Perm (drop i (seats_of ms) ++ take i (seats_of ms)) xs)
        (take-append-drop i (seats_of ms))
        (perm_append_comm (drop i (seats_of ms)) (take i (seats_of ms))))

-- The first seat with the player's id, and where it stands.
find_index-at :
    (k : ℕ) (me : String) (seats : List Seat)
    → any (λ s. s.id == me) seats ≡ true
    → (i : ℕ) × (s : Seat) × (rest : List Seat) × (find_index k me seats ≡ pos (k + i))
      × (i < length seats)
      × (drop i seats ≡ s ∷ rest)
      × (s.id ≡ me)
unfolding find_index
find_index-at k me [] h = cc
find_index-at k me (s ∷ seats) h = elim (Bool-cases (s.id == me)) [
  | inl here ↦ (0, s, seats, ground arith, omega arith, refl, (eq_iff s.id me).0 here)
  | inr later ↦
      let (i, t, rest, found, within, at, same) = find_index-at (k + 1) me seats (ground arith) in
      (suc i, t, rest, ground arith, omega arith, at, same)
]

rotate_to-at :
    (i : ℕ) (seats : List Seat) (s : Seat) (rest : List Seat)
    → i < length seats
    → drop i seats ≡ s ∷ rest
    → rotate_to (pos i) seats ≡ s ∷ (rest ++ take i seats)
unfolding rotate_to
rotate_to-at i seats s rest h e = elim (Bool-cases (leb (length seats) i)) [
  | inl out ↦ absurd (ground arith)
  | inr within ↦ rw (within, e)
]

own_index_unnumbered :
    (own : Option ℤ) (me : String) (seats : List Seat)
    → own ≡ none
    → me ≢ ""
    → own_index own (some me) seats ≡ find_index 0 me seats
unfolding own_index
own_index_unnumbered own me seats e known = rw e (ground (arith, eq_iff me ""))

-- A player who sits at the table, and whose seat the server did not number, is shown first.
pub select_ordered_seats-first :
    (state : GameState) (me : String) (ms : MatchState)
    → state.match_state ≡ some ms
    → ms.my_seat_index ≡ none
    → me ≢ ""
    → any (λ s. s.id == me) (seats_of ms) ≡ true
    → (s : Seat) × (rest : List Seat) × (select_ordered_seats state (some me) ≡ s ∷ rest)
      × (s.id ≡ me)
unfolding select_ordered_seats
select_ordered_seats-first state me ms there unnumbered known sits =
    let (i, s, rest, found, within, at, same) = find_index-at 0 me (seats_of ms) sits in
    (
      s,
      rest ++ take i (seats_of ms),
      rw there (
          ap (λ k. rotate_to k (seats_of ms))
            (own_index_unnumbered ms.my_seat_index me (seats_of ms) unnumbered known
              ∙ (rw zero-add at found))
          ∙ rotate_to-at i (seats_of ms) s rest within at),
      same,
    )
