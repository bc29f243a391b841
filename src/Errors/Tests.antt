-- ===== src/Errors/Tests.antt =====
-- Thrown values as the client reads them.
use cavi_api_client.Base.{none, some, ◌≡◌, refl, true, false}
use cavi_api_client.Base.Number.{int}
use cavi_api_client.Base.Text.{codes}
use cavi_api_client.Errors.{error, plain, Failure, is_auth_error, is_abort_error, get_error_message}

abbrev forbidden : Failure
forbidden = record {
  class = plain;
  name = none;
  type = none;
  code = some "  ";
  status = some (int 403);
  message = codes "";
  rendered = codes " {} ";
  as_string = codes "[object Object]";
}

abbrev aborted : Failure
aborted = record {
  class = error;
  name = some "AbortError";
  type = none;
  code = none;
  status = none;
  message = codes " gone ";
  rendered = codes "{}";
  as_string = codes "AbortError: gone";
}

forbidden_tests :
    (is_auth_error forbidden ≡ true)
    × (is_abort_error forbidden ≡ false)
    × (get_error_message forbidden ≡ codes "{}")
unfolding is_auth_error is_abort_error get_error_message
forbidden_tests = (refl, refl, refl)

aborted_tests :
    (is_auth_error aborted ≡ false)
    × (is_abort_error aborted ≡ true)
    × (get_error_message aborted ≡ codes "gone")
unfolding is_auth_error is_abort_error get_error_message
aborted_tests = (refl, refl, refl)
