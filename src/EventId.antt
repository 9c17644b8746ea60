-- ===== src/EventId.antt =====
-- The version in the id of a move event: `parseMoveVersionFromEventId` of src/store/game.store.ts
-- and `parseVersionFromEventId` of src/processes/joinGameMoveReplayBuffer.ts. The text is read by
-- code points; numbers are exact.
pub mod Laws
use durak_card_game.Prelude.{
  ℕ, zero, suc, ◌+◌, ◌-◌, ◌*◌, String, Bool, true, false, ◌||◌, ◌&&◌, Option, none, some, List, [],
  ◌∷◌, leb, eqb, length, drop, codes, starts, is_some, if◌then◌else◌, ◌==◌,
}
use durak_card_game.Prelude.Int.{ℤ, pos, negsuc}

-- `s.lastIndexOf(part)`, counted from `i`; `none` is -1
unfoldable pub last_index_from : ℕ → List ℕ → List ℕ → Option ℕ
last_index_from i part [] = if starts part [] then some i else none
last_index_from i part (c ∷ s) = elim (last_index_from (i + 1) part s) [
  | some j ↦ some j
  | none ↦ if starts part (c ∷ s) then some i else none
]

-- what `parseInt` skips: white space and line ends
unfoldable pub is_space : ℕ → Bool
is_space c =
    leb 9 c && leb c 13
    || (eqb c 0x20
        || (eqb c 0xa0
            || (eqb c 0x1680
                || (leb 0x2000 c && leb c 0x200a
                    || (eqb c 0x2028
                        || (eqb c 0x2029
                            || (eqb c 0x202f
                                || (eqb c 0x205f || (eqb c 0x3000 || eqb c 0xfeff)))))))))

unfoldable pub skip_space : List ℕ → List ℕ
skip_space [] = []
skip_space (c ∷ s) = let rest = skip_space s in if is_space c then rest else c ∷ s

abbrev pub is_digit : ℕ → Bool
is_digit c = leb b'0' c && leb c b'9'

-- The longest run of digits; `none` if there is not one.
unfoldable pub read_digits : ℕ → Bool → List ℕ → Option ℕ
read_digits value seen [] = if seen then some value else none
read_digits value seen (c ∷ s) =
    let rest = read_digits (value * 10 + (c - b'0')) true s in
    if is_digit c then rest else if seen then some value else none

abbrev pub negate : ℕ → ℤ
negate n = elim n [ zero ↦ pos 0 | suc m ↦ negsuc m ]

-- `Number.parseInt(s, 10)`; `none` is NaN
unfoldable pub parse_signed : List ℕ → Option ℤ
parse_signed [] = none
parse_signed (c ∷ s) =
    if eqb c b'-'
    then elim (read_digits 0 false s) [ none ↦ none | some n ↦ some (negate n) ]
    else elim (if eqb c b'+' then read_digits 0 false s else read_digits 0 false (c ∷ s)) [
      | none ↦ none
      | some n ↦ some (pos n)
    ]

unfoldable pub parse_int : List ℕ → Option ℤ
parse_int s = parse_signed (skip_space s)

abbrev pub marker : List ℕ
marker = b':' ∷ b'v' ∷ []

-- `!Number.isFinite(parsed) || parsed < 0` leaves no version
abbrev pub non_negative : Option ℤ → Option ℕ
non_negative none = none
non_negative (some (pos n)) = some n
non_negative (some (negsuc n)) = none

unfoldable pub version_of_codes : List ℕ → Option ℕ
version_of_codes s = elim (last_index_from 0 marker s) [
  | none ↦ none
  | some i ↦ if leb (length s) (i + 2) then none else non_negative (parse_int (drop (i + 2) s))
]

-- `parseMoveVersionFromEventId`
unfoldable pub parse_move_version_from_event_id : String → Option ℕ
parse_move_version_from_event_id event_id = version_of_codes (codes event_id)

-- `parseVersionFromEventId`, which takes a missing id too
unfoldable pub parse_version_from_event_id : Option String → Option ℕ
parse_version_from_event_id none = none
parse_version_from_event_id (some event_id) =
    if event_id == "" then none else version_of_codes (codes event_id)
