-- ===== src/ErrorText.antt =====
-- The text for an error of the server: src/shared/utils/mapServerErrorToMessage.ts.
pub mod Laws
use durak_card_game.Prelude.{
  String, Bool, true, false, ◌&&◌, ◌||◌, not, Option, none, some, ◌==◌, same_text, truthy, get_or,
  lower_includes, if◌then◌else◌,
}
use durak_card_game.Store.{Language, tr_runtime}

-- `ServerErrorLike`, with the `type` that the code reads besides
pub record ServerError : Type 0 where
  pub code : Option String
  pub reason : Option String
  pub kind : Option String
  pub message : Option String

pub record ErrorText : Type 0 where
  pub text : String
  pub code : Option String

-- `a || b` on texts that may be missing
abbrev pub first_text : Option String → Option String → Option String
first_text a b = if truthy a then a else b

-- `err.code || err.reason || err.type`
unfoldable pub error_code : ServerError → Option String
error_code err = first_text err.code (first_text err.reason err.kind)

abbrev pub known : Language → String → String → String → ErrorText
known language code ru uk = record { text = tr_runtime language ru uk; code = some code }

-- `message || …`
abbrev pub text_or : String → String → String
text_or message fallback = if message == "" then fallback else message

unfoldable pub text_of_code : Language → Option String → String → ErrorText
text_of_code l code message =
    if same_text code "expectedVersion" || same_text code "VERSION_MISMATCH"
    then known l "expectedVersion" "Состояние устарело. Обновите состояние комнаты."
        "Стан застарів. Оновіть стан кімнати."
    else if same_text code "kicked"
    then known l "kicked" "Вы были исключены из комнаты." "Вас було виключено з кімнати."
    else if same_text code "notAllowed" || same_text code "forbidden"
    then known l "notAllowed" "Действие запрещено сервером." "Дію заборонено сервером."
    else if same_text code "insufficientFunds"
    then known l "insufficientFunds" "Недостаточно средств." "Недостатньо коштів."
    else if same_text code "internalError"
    then known l "internalError" "Внутренняя ошибка сервера, попробуйте позже."
        "Внутрішня помилка сервера, спробуйте пізніше."
    else if same_text code "INVALID_TURN"
    then known l "invalidTurn" "Сейчас не ваш ход." "Зараз не ваш хід."
    else if same_text code "INVALID_CARD"
    then known l "invalidCard" "Эта карта сейчас не подходит." "Ця карта зараз не підходить."
    else if same_text code "INVALID_ACTION"
    then known l "invalidAction" "Это действие сейчас недоступно." "Ця дія зараз недоступна."
    else if same_text code "RATE_LIMIT"
    then known l "rateLimit" "Слишком много действий. Попробуйте чуть позже."
        "Забагато дій. Спробуйте трохи пізніше."
    else record {
      text = text_or message (tr_runtime l "Ошибка сервера." "Помилка сервера.");
      code = code;
    }

unfoldable pub map_server_error_to_message : Language → Option ServerError → ErrorText
map_server_error_to_message l none = record {
  text = tr_runtime l "Неизвестная ошибка сервера" "Невідома помилка сервера";
  code = none;
}
map_server_error_to_message l (some err) =
    if lower_includes (get_or err.message "") "cannot report shuler"
    then known l "shulerReportWindowClosed" "Окно жалобы на шулера уже закрыто."
        "Вікно скарги на шулера вже закрите."
    else if lower_includes (get_or err.message "") "shuler play is not allowed"
    then known l "shulerPlayDenied" "Шулер-ход сейчас недоступен." "Шулер-хід зараз недоступний."
    else text_of_code l (error_code err) (get_or err.message "")
