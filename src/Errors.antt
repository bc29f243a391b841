-- ===== src/Errors.antt =====
-- src/core/errors.ts: what the client reads off a value that was thrown. JavaScript throws any
-- value: `Failure` holds what the code can observe of one, and the tests go by its properties.
mod Tests
use cavi_api_client.Base.{
  ℕ, ◌*◌, String, str_eq, Bool, true, false, not, ◌&&◌, ◌||◌, Option, none, some, ◌==◌,
  if◌then◌else◌, List,
}
use cavi_api_client.Base.Number.{Number, num, scale, is_finite}
use cavi_api_client.Base.Text.{Text, codes, trim, is_blank, is_empty}

-- What `instanceof` tells of a value; `plain` is no `Error`.
pub data ErrorClass : Type 0 where
  gateway_rpc : ErrorClass
  call_rejected : (http_status : Option Number) → ErrorClass
  gateway_http : Number → ErrorClass
  type_error : ErrorClass
  error : ErrorClass
  plain : ErrorClass

-- A property is `none` where the value has none of that name with a text (a number, for `status`).
-- `rendered` is what `stringifyUnknownError` makes of the value, `as_string` what `String(…)` does.
pub record Failure : Type 0 where
  pub class : ErrorClass
  pub name : Option String
  pub type : Option String
  pub code : Option String
  pub status : Option Number
  pub message : Text
  pub rendered : Text
  pub as_string : Text

-- `readStringProperty`: a blank text counts as no text.
unfoldable pub read_string : Option String → Option String
unfolding is_blank
read_string none = none
read_string (some s) = if is_blank (codes s) then none else some s

abbrev pub is_text : Option String → String → Bool
is_text none s = false
is_text (some t) s = str_eq t s

unfoldable pub get_error_code : Failure → Option String
unfolding read_string
get_error_code e = read_string e.code

unfoldable pub get_error_type : Failure → Option String
unfolding read_string
get_error_type e = read_string e.type

finite_status : Option Number → Option Number
finite_status none = none
finite_status (some n) = if is_finite n then some n else none

unfoldable pub get_error_status : Failure → Option Number
unfolding finite_status
get_error_status e = finite_status e.status

unfoldable pub is_abort_error : Failure → Bool
unfolding get_error_code get_error_type read_string
is_abort_error e =
    is_text (get_error_type e) "abort"
    || is_text (get_error_code e) "aborted"
    || is_text (get_error_code e) "ABORT_ERR"
    || is_text (read_string e.name) "AbortError"

-- `status === k`, for a whole number k.
abbrev pub is_status : Option Number → ℕ → Bool
is_status (some (num n)) k = n == k * scale
is_status _ k = false

unfoldable pub is_auth_error : Failure → Bool
unfolding get_error_code get_error_type get_error_status
is_auth_error e =
    is_status (get_error_status e) 401
    || is_status (get_error_status e) 403
    || is_text (get_error_type e) "auth"
    || is_text (get_error_code e) "auth_required"
    || is_text (get_error_code e) "auth_forbidden"

abbrev pub is_error : ErrorClass → Bool
is_error plain = false
is_error _ = true

-- `getErrorMessage`
unfoldable pub get_error_message : Failure → Text
unfolding trim
get_error_message e =
    if is_error e.class && not (is_empty (trim e.message))
    then trim e.message
    else if is_empty (trim e.rendered)
    then codes "Unknown error"
    else trim e.rendered
