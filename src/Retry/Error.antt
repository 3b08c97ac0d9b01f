-- ===== src/Retry/Error.antt =====
-- src/retry/errorClassification.ts. The names in the two sets are types of the SDK's errors.
use axionvera_sdk.Prelude.{
  ℕ, String, Bool, true, false, Option, none, some, List, [], ◌∷◌, any, if◌then◌else◌, ◌==◌, str_eq,
}

-- What may be thrown: an AxionveraError with its `getType()`, another `Error` with its name, and any
-- other value with its `typeof`; and its `statusCode`, if that is a number.
pub data Thrown : Type 0 where
  sdk_error : String → Option ℕ → Thrown
  js_error : String → Option ℕ → Thrown
  value : String → Option ℕ → Thrown

abbrev pub retryable_status_codes : List ℕ
retryable_status_codes = 408 ∷ 425 ∷ 429 ∷ 500 ∷ 502 ∷ 503 ∷ 504 ∷ []

abbrev pub retryable_error_names : List String
retryable_error_names =
    "NetworkError" ∷ "TimeoutError" ∷ "TransactionTimeoutError" ∷ "RateLimitError"
    ∷ "FaucetRateLimitError" ∷ "RpcError" ∷ "AxionveraRPCError" ∷ []

abbrev pub non_retryable_error_names : List String
non_retryable_error_names =
    "ValidationError" ∷ "AuthenticationError" ∷ "InvalidXDRError" ∷ "InvalidSignatureError"
    ∷ "InsufficientFundsError" ∷ "NetworkMismatchError" ∷ "InsecureNetworkError"
    ∷ "WalletNotInstalledError" ∷ "ContractError" ∷ []

-- `Set.has`
abbrev pub has_name : List String → String → Bool
has_name names name = any (λ n. str_eq n name) names

unfoldable pub has_retryable_status : Option ℕ → Bool
has_retryable_status none = false
has_retryable_status (some code) = any (λ k. k == code) retryable_status_codes

unfoldable pub is_retryable_error : Thrown → Bool
unfolding has_retryable_status
is_retryable_error (sdk_error name status) =
    if has_name non_retryable_error_names name
    then false
    else if has_name retryable_error_names name
    then true
    else has_retryable_status status
is_retryable_error (js_error name status) =
    if has_name non_retryable_error_names name
    then false
    else if has_name retryable_error_names name
    then true
    else has_retryable_status status
is_retryable_error (value kind status) = has_retryable_status status

unfoldable pub error_type_name : Thrown → String
error_type_name (sdk_error name status) = name
error_type_name (js_error name status) = if str_eq name "" then "Error" else name
error_type_name (value kind status) = kind
