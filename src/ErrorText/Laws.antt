-- ===== src/ErrorText/Laws.antt =====
-- What is shown for an error of the server.
use durak_card_game.Prelude.{
  String, ◌≡◌, Bool, true, false, Option, none, some, arith, get_or, ◌==◌, ◌||◌, same_text,
  lower_includes, if◌then◌else◌, refl,
}
use durak_card_game.Store.{Language, ru, uk, tr_runtime}
use durak_card_game.ErrorText.{
  ServerError, ErrorText, text_of_code, error_code, map_server_error_to_message, text_or, known,
}

-- There is something to read.
pub record HasText (t : ErrorText) : Type 0 where
  pub nonempty : (t.text == "") ≡ false

if-HasText : (b : Bool) (t u : ErrorText) → HasText t → HasText u → HasText (if b then t else u)
if-HasText true t u h k = h
if-HasText false t u h k = k

known-HasText :
    (l : Language) (code r u : String)
    → (r == "") ≡ false
    → (u == "") ≡ false
    → HasText (known l code r u)
known-HasText ru code r u h k = record { nonempty = h }
known-HasText uk code r u h k = record { nonempty = k }

text_or-nonempty :
    (message fallback : String)
    → (fallback == "") ≡ false
    → (text_or message fallback == "") ≡ false
text_or-nonempty message fallback h = ground arith

fallback-HasText :
    (l : Language) (code : Option String) (message r u : String)
    → (r == "") ≡ false
    → (u == "") ≡ false
    → HasText (record { text = text_or message (tr_runtime l r u); code = code })
fallback-HasText ru code message r u h k = record { nonempty = text_or-nonempty message r h }
fallback-HasText uk code message r u h k = record { nonempty = text_or-nonempty message u k }

text_of_code-HasText :
    (l : Language) (code : Option String) (message : String) → HasText (text_of_code l code message)
unfolding text_of_code
text_of_code-HasText l code message =
    if-HasText (same_text code "expectedVersion" || same_text code "VERSION_MISMATCH") _ _
      (known-HasText l _ _ _ refl refl)
      (if-HasText (same_text code "kicked") _ _ (known-HasText l _ _ _ refl refl) (
        if-HasText (same_text code "notAllowed" || same_text code "forbidden") _ _
          (known-HasText l _ _ _ refl refl)
          (if-HasText (same_text code "insufficientFunds") _ _ (known-HasText l _ _ _ refl refl) (
            if-HasText (same_text code "internalError") _ _ (known-HasText l _ _ _ refl refl) (
              if-HasText (same_text code "INVALID_TURN") _ _ (known-HasText l _ _ _ refl refl) (
                if-HasText (same_text code "INVALID_CARD") _ _ (known-HasText l _ _ _ refl refl) (
                  if-HasText (same_text code "INVALID_ACTION") _ _ (known-HasText l _ _ _ refl refl)
                    (if-HasText (same_text code "RATE_LIMIT") _ _ (known-HasText l _ _ _ refl refl)
                      (fallback-HasText l code message _ _ refl refl)))))))))

map-HasText :
    (l : Language) (err : Option ServerError) → HasText (map_server_error_to_message l err)
unfolding map_server_error_to_message
map-HasText ru none = record { nonempty = refl }
map-HasText uk none = record { nonempty = refl }
map-HasText l (some err) =
    if-HasText (lower_includes (get_or err.message "") "cannot report shuler") _ _
      (known-HasText l _ _ _ refl refl)
      (if-HasText (lower_includes (get_or err.message "") "shuler play is not allowed") _ _
        (known-HasText l _ _ _ refl refl)
        (text_of_code-HasText l (error_code err) (get_or err.message "")))

-- Whatever the server sends as an error, also with no code and an empty message, the text that the
-- client shows for it is not empty, in both languages.
pub map_server_error_to_message-nonempty :
    (l : Language) (err : Option ServerError)
    → (map_server_error_to_message l err).text == "" ≡ false
map_server_error_to_message-nonempty l err = (map-HasText l err).nonempty
