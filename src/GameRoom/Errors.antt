-- ===== src/GameRoom/Errors.antt =====
-- `formatApiError` of src/pages/GameRoom/GameRoomPage.tsx, and the handlers of failed requests.
use durak_card_game.Prelude.{
  ℕ, String, ◌≡◌, ◌≢◌, refl, Bool, true, false, ◌||◌, Option, some, [], eqb, same_text, lower_codes,
  lower_includes, is_empty, get_or, if◌then◌else◌,
}
use durak_card_game.GameRoom.{Translate, RoomPage}

-- `HttpError`, its body as the text that `String` makes of it; any other error is `other`.
pub data Failure : Type 0 where
  http : ℕ → Option String → Option String → String → Failure
  other : Failure

abbrev pub code_is : Option String → String → Bool
code_is = same_text

module _ (t : Translate) where
  -- the texts that the body of the error is searched for
  unfoldable pub text_of_body : String → String → String
  text_of_body body fallback_key =
      if lower_includes body "insufficient balance"
      then t "room.error.insufficientBalance" []
      else if lower_includes body "match start already in progress"
      then t "room.error.startInProgress" []
      else if lower_includes body "stake confirmation is required"
      then t "room.error.stakeRequired" []
      else if lower_includes body "stake confirmation expired"
      then t "room.error.stakeExpired" []
      else if lower_includes body "only room participants can confirm stake"
      then t "room.error.notParticipant" []
      else if is_empty (lower_codes body)
      then t fallback_key []
      else body

  unfoldable pub format_api_error : Failure → String → String
  unfolding text_of_body
  format_api_error other fallback_key = t fallback_key []
  format_api_error (http status code response_body message) fallback_key =
      if eqb status 401 || code_is code "unauthorized"
      then t "room.error.auth" []
      else if code_is code "insufficient_funds"
      then t "room.error.insufficientBalance" []
      else if code_is code "start_in_progress"
      then t "room.error.startInProgress" []
      else if code_is code "stake_confirmation_required"
      then t "room.error.stakeRequired" []
      else if code_is code "stake_confirmation_expired"
      then t "room.error.stakeExpired" []
      else if code_is code "room_participant_required"
      then t "room.error.notParticipant" []
      else text_of_body (get_or response_body message) fallback_key

  -- the `catch` and the `finally` of `confirmReady`
  unfoldable pub ready_failed : Failure → RoomPage → RoomPage
  ready_failed e p = record p {
    error = some (format_api_error e "room.error.ready");
    is_ready_loading = false;
  }

  -- those of `confirmStake`
  unfoldable pub stake_failed : Failure → RoomPage → RoomPage
  stake_failed e p = record p {
    error = some (format_api_error e "room.error.stake");
    is_ready_loading = false;
  }

  -- those of `handleStart`
  unfoldable pub start_failed : Failure → RoomPage → RoomPage
  start_failed e p = record p {
    error = some (format_api_error e "room.error.start");
    is_start_loading = false;
  }

record IsShown (s : String) : Type 0 where
  nonempty : s ≢ ""

if-IsShown :
    (b : Bool) (s u : String) → IsShown s → (b ≡ false → IsShown u) → IsShown (if b then s else u)
if-IsShown true s u h k = h
if-IsShown false s u h k = k refl

emptied : (body : String) → body ≡ "" → is_empty (lower_codes body) ≡ true
unfolding lower_codes
emptied body e = rw e

not_empty : (body : String) → is_empty (lower_codes body) ≡ false → IsShown body
not_empty body h = record { nonempty = λ e. cc (h, emptied body e) }

module _ (t : Translate) (told : (k : String) → IsShown (t k [])) where
  text_of_body-IsShown : (body key : String) → IsShown (text_of_body t body key)
  unfolding text_of_body
  text_of_body-IsShown body key =
      if-IsShown (lower_includes body "insufficient balance") _ _ (told _) λ _.
        if-IsShown (lower_includes body "match start already in progress") _ _ (told _) λ _.
          if-IsShown (lower_includes body "stake confirmation is required") _ _ (told _) λ _.
            if-IsShown (lower_includes body "stake confirmation expired") _ _ (told _) λ _.
              if-IsShown (lower_includes body "only room participants can confirm stake") _ _
                (told _)
                λ _. if-IsShown (is_empty (lower_codes body)) _ _ (told key) (not_empty body)

  format_api_error-IsShown : (e : Failure) (key : String) → IsShown (format_api_error t e key)
  unfolding format_api_error
  format_api_error-IsShown other key = told key
  format_api_error-IsShown (http status code body message) key =
      if-IsShown (eqb status 401 || code_is code "unauthorized") _ _ (told _) λ _.
        if-IsShown (code_is code "insufficient_funds") _ _ (told _) λ _.
          if-IsShown (code_is code "start_in_progress") _ _ (told _) λ _.
            if-IsShown (code_is code "stake_confirmation_required") _ _ (told _) λ _.
              if-IsShown (code_is code "stake_confirmation_expired") _ _ (told _) λ _.
                if-IsShown (code_is code "room_participant_required") _ _ (told _)
                  λ _. text_of_body-IsShown (get_or body message) key

-- Where no translation is empty, every failed request of the page ends with a text to show, the
-- body of the error included, which may be empty.
pub format_api_error-nonempty :
    (t : Translate) (e : Failure) (key : String)
    → ((k : String) → t k [] ≢ "")
    → format_api_error t e key ≢ ""
format_api_error-nonempty t e key told =
    (format_api_error-IsShown t (λ k. record { nonempty = told k }) e key).nonempty
