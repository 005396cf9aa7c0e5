-- ===== src/Gateway/Errors.antt =====
-- src/ai/provider-error.js: what a provider throws, in the gateway's terms.
use whatsapp_ai_supervisor.Common.{
  Bool, Option, String, eqb, false, if-holds, if◌then◌else◌, is_empty, is_some, is_text, leb, none,
  not, refl, some, true, ℕ, ◌==◌, ◌||◌, ◌≡◌,
}

pub data Code : Type 0 where
  auth rate_limit unavailable timeout invalid_response deadline_exceeded circuit_open : Code
  all_providers_failed : Code

pub record GatewayError : Type 0 where
  pub code : Code
  pub provider : Option String
  pub retryable : Bool

-- What was thrown: an error of the gateway, or one with a `code`, trimmed and in lower case, a name
-- and a status. A status below 0 or no integer is none.
pub data Thrown : Type 0 where
  gateway : GatewayError → Thrown
  other : (code : String) (name : Option String) (status : Option ℕ) → Thrown

abbrev pub error_of : Code → String → Bool → GatewayError
error_of code provider retryable = record {
  code = code;
  provider = if is_empty provider then none else some provider;
  retryable = retryable;
}

abbrev pub is_status : Option ℕ → ℕ → Bool
is_status none n = false
is_status (some status) n = eqb status n

abbrev pub status_from : Option ℕ → ℕ → Bool
status_from none n = false
status_from (some status) n = leb n status

-- By the status, where nothing else tells.
unfoldable pub error_of_status : Option ℕ → String → GatewayError
error_of_status status provider =
    if is_status status 401 || is_status status 403
    then error_of auth provider false
    else if is_status status 408 || is_status status 504
    then error_of timeout provider true
    else if is_status status 429
    then error_of rate_limit provider true
    else if status_from status 500
    then error_of unavailable provider true
    else if status_from status 400
    then error_of invalid_response provider false
    else error_of unavailable provider true

unfoldable pub normalize_provider_error : Thrown → String → GatewayError
normalize_provider_error (gateway error) provider =
    if is_some error.provider || is_empty provider
    then error
    else error_of error.code provider error.retryable
normalize_provider_error (other code name status) provider =
    if code == "invalid_response"
    then error_of invalid_response provider false
    else if code == "rate_limit"
    then error_of rate_limit provider true
    else if code == "auth"
    then error_of auth provider false
    else if code == "timeout"
    then error_of timeout provider true
    else if code == "unavailable"
    then error_of unavailable provider true
    else if is_text name "TimeoutError" || is_text name "AbortError"
    then error_of timeout provider true
    else error_of_status status provider

abbrev pub is_auth : Code → Bool
is_auth auth = true
is_auth _ = false

abbrev pub is_invalid : Code → Bool
is_invalid invalid_response = true
is_invalid _ = false

-- To be retried unless it is a refused login or an answer that cannot be used.
abbrev pub RetriedByCode : GatewayError → Type 0
RetriedByCode error = error.retryable ≡ not (is_auth error.code || is_invalid error.code)

pub error_of_status-RetriedByCode :
    (status : Option ℕ) (provider : String) → RetriedByCode (error_of_status status provider)
unfolding error_of_status
error_of_status-RetriedByCode status provider =
    if-holds RetriedByCode (is_status status 401 || is_status status 403) (λ _. refl)
      (λ _.
        if-holds RetriedByCode (is_status status 408 || is_status status 504) (λ _. refl)
          (λ _.
            if-holds RetriedByCode (is_status status 429) (λ _. refl)
              (λ _.
                if-holds RetriedByCode (status_from status 500) (λ _. refl)
                  (λ _. if-holds RetriedByCode (status_from status 400) (λ _. refl) (λ _. refl)))))

-- A provider's own error becomes one that is retried unless it is a refused login or an answer that
-- cannot be used, whatever it carries.
pub normalize_provider_error-RetriedByCode :
    (code : String) (name : Option String) (status : Option ℕ) (provider : String)
    → RetriedByCode (normalize_provider_error (other code name status) provider)
unfolding normalize_provider_error
normalize_provider_error-RetriedByCode code name status provider =
    if-holds RetriedByCode (code == "invalid_response") (λ _. refl)
      (λ _.
        if-holds RetriedByCode (code == "rate_limit") (λ _. refl)
          (λ _.
            if-holds RetriedByCode (code == "auth") (λ _. refl)
              (λ _.
                if-holds RetriedByCode (code == "timeout") (λ _. refl)
                  (λ _.
                    if-holds RetriedByCode (code == "unavailable") (λ _. refl)
                      (λ _.
                        if-holds RetriedByCode
                          (is_text name "TimeoutError" || is_text name "AbortError") (λ _. refl)
                          (λ _. error_of_status-RetriedByCode status provider))))))
