-- ===== src/EventId/Laws.antt =====
-- What the parser finds.
use Prim.Native.Char.{code}
use Prim.Native.String
use text.Mathlib.TextLemmas.{nil-append, cons-append}
use durak_card_game.Prelude.{
  sym, Bool-cases, ◌==◌, eq_iff, ℕ, ◌+◌, ◌-◌, ◌*◌, ◌<◌, String, ◌≡◌, refl, ap, ◌∙◌, ◌≢◌, inl, inr,
  true, false, none, some, List, [], ◌∷◌, ◌++◌, arith, All, length, drop, codes, starts,
  length-append,
}
use durak_card_game.Prelude.Int.{pos}
use native.Mathlib.Nat.{zero-add, suc-add}
use durak_card_game.EventId.{
  last_index_from, is_space, skip_space, is_digit, read_digits, parse_signed, parse_int, marker,
  non_negative, version_of_codes, parse_version_from_event_id, parse_move_version_from_event_id,
}

-- The number that decimal digits denote, the first digit weighing most.
abbrev pub decimal_from : ℕ → List ℕ → ℕ
decimal_from value [] = value
decimal_from value (c ∷ s) = decimal_from (value * 10 + (c - b'0')) s

abbrev pub AreDigits : List ℕ → Type 0
AreDigits = All (λ c. is_digit c ≡ true)

read_digits_lem :
    (value : ℕ) (ds : List ℕ)
    → AreDigits ds
    → read_digits value true ds ≡ some (decimal_from value ds)
unfolding read_digits
read_digits_lem value [] h = refl
read_digits_lem value (c ∷ ds) (d, h) = rw d (read_digits_lem (value * 10 + (c - b'0')) ds h)

digit_plain : (c : ℕ) → is_digit c ≡ true → is_space c ≡ false
unfolding is_space
digit_plain c h = ground arith

read_head :
    (c : ℕ) (ds : List ℕ)
    → is_digit c ≡ true
    → AreDigits ds
    → read_digits 0 false (c ∷ ds) ≡ some (decimal_from 0 (c ∷ ds))
unfolding read_digits
read_head c ds d h = rw d (read_digits_lem _ ds h)

parse_int_digits :
    (c : ℕ) (ds : List ℕ)
    → AreDigits (c ∷ ds)
    → parse_int (c ∷ ds) ≡ some (pos (decimal_from 0 (c ∷ ds)))
unfolding parse_int skip_space parse_signed
parse_int_digits c ds (d, h) = ground (arith, digit_plain c d, read_head c ds d h)

last_index_digits : (i : ℕ) (ds : List ℕ) → AreDigits ds → last_index_from i marker ds ≡ none
unfolding last_index_from starts
last_index_digits i [] h = refl
last_index_digits i (c ∷ ds) (d, h) = ground (arith, last_index_digits (i + 1) ds h)

last_index_marker :
    (i : ℕ) (before ds : List ℕ)
    → AreDigits ds
    → last_index_from i marker (before ++ (b':' ∷ b'v' ∷ ds)) ≡ some (i + length before)
unfolding last_index_from starts
last_index_marker i [] ds h = ground (arith, last_index_digits (i + 1 + 1) ds h)
last_index_marker i (c ∷ before) ds h = rw (last_index_marker (i + 1) before ds h) (ground arith)

drop-append_left : (n : ℕ) (before s : List ℕ) → drop (length before + n) (before ++ s) ≡ drop n s
drop-append_left n [] s = rw zero-add
drop-append_left n (c ∷ before) s = rw (suc-add, drop-append_left n before s)

version_at :
    (s rest : List ℕ) (i : ℕ)
    → last_index_from 0 marker s ≡ some i
    → i + 2 < length s
    → drop (i + 2) s ≡ rest
    → version_of_codes s ≡ non_negative (parse_int rest)
unfolding version_of_codes
version_at s rest i found room e = ground arith

version_of_codes-marker :
    (before : List ℕ) (c : ℕ) (ds : List ℕ)
    → AreDigits (c ∷ ds)
    → version_of_codes (before ++ (b':' ∷ b'v' ∷ c ∷ ds)) ≡ some (decimal_from 0 (c ∷ ds))
version_of_codes-marker before c ds h =
    let s = before ++ (b':' ∷ b'v' ∷ c ∷ ds) in
    let found : last_index_from 0 marker s ≡ some (length before) =
      rw zero-add at (last_index_marker 0 before (c ∷ ds) h) in
    version_at s (c ∷ ds) (length before) found
      (omega (arith, length-append before (b':' ∷ b'v' ∷ c ∷ ds)))
      (drop-append_left 2 before (b':' ∷ b'v' ∷ c ∷ ds))
    ∙ ap non_negative (parse_int_digits c ds h)

codes-append : (s t : String) → codes (String.◌++◌ s t) ≡ codes s ++ codes t
codes-append String.[] t = rw nil-append
codes-append (String.◌∷◌ c s) t = rw cons-append (ap (◌∷◌ (code c)) (codes-append s t))

-- `<match>:v<digits>`, as the server builds it
abbrev pub event_id_of : String → String → String
event_id_of match_id digits = String.◌++◌ match_id (String.◌++◌ ":v" digits)

codes-event_id_of :
    (match_id digits : String)
    → codes (event_id_of match_id digits) ≡ codes match_id ++ (b':' ∷ b'v' ∷ codes digits)
codes-event_id_of match_id digits =
    codes-append match_id (String.◌++◌ ":v" digits)
    ∙ ap (λ s. codes match_id ++ s) (codes-append ":v" digits)

version-event_id_of :
    (match_id digits : String)
    → AreDigits (codes digits)
    → digits ≢ ""
    → version_of_codes (codes (event_id_of match_id digits)) ≡ some (decimal_from 0 (codes digits))
version-event_id_of match_id String.[] h other = absurd (other refl)
version-event_id_of match_id (String.◌∷◌ c s) h other =
    rw (codes-event_id_of match_id (String.◌∷◌ c s))
      (version_of_codes-marker (codes match_id) (code c) (codes s) h)

version_of_codes-nil : version_of_codes [] ≡ none
unfolding version_of_codes last_index_from starts
version_of_codes-nil = refl

-- Both readers of an id that is there agree.
pub readers_agree :
    (id : String) → parse_version_from_event_id (some id) ≡ parse_move_version_from_event_id id
unfolding parse_version_from_event_id parse_move_version_from_event_id
readers_agree id = elim (Bool-cases (id == "")) [
  | inl empty ↦
      rw (empty, ap (λ t. version_of_codes (codes t)) ((eq_iff id "").0 empty))
        (sym version_of_codes-nil)
  | inr full ↦ rw full refl
]

parse_version_nonempty :
    (id : String) {v : ℕ}
    → version_of_codes (codes id) ≡ some v
    → parse_version_from_event_id (some id) ≡ some v
unfolding parse_version_from_event_id
parse_version_nonempty id e = elim (Bool-cases (id == "")) [
  | inl empty ↦
      absurd (
        cc (e, version_of_codes-nil, ap (λ t. version_of_codes (codes t)) ((eq_iff id "").0 empty)))
  | inr full ↦ rw full e
]

-- The id of a move has the version that its digits denote, whatever text names the match, with
-- markers in that text too; both readers of an id agree on it.
pub parse_version-event_id_of :
    (match_id digits : String)
    → AreDigits (codes digits)
    → digits ≢ ""
    → (parse_move_version_from_event_id (event_id_of match_id digits)
        ≡ some (decimal_from 0 (codes digits)))
      × (parse_version_from_event_id (some (event_id_of match_id digits))
          ≡ some (decimal_from 0 (codes digits)))
unfolding parse_move_version_from_event_id parse_version_from_event_id
parse_version-event_id_of match_id digits h other =
    let e = version-event_id_of match_id digits h other in
    (e, parse_version_nonempty (event_id_of match_id digits) e)
