-- ===== src/Errors.antt =====
-- gearbox/core/Errors.h and Errors.cc: the error classes, and the exceptions of the modelled code.
-- `http` is `Error`, the base class of the HTTP-style errors; the other constructors are the
-- exception types outside that hierarchy. Logging and the stack trace of `gbTHROW` are left out.
pub mod Laws
use gearbox.Base.{
  ℕ, zero, suc, Bool, true, false, not, Bytes, codes, ◌++◌, List, [], ◌∷◌, is_empty, starts_with,
  if◌then◌else◌, Option, none, some, ◌==◌, take, decimal,
}

pub record HttpError : Type 0 where
  pub code : ℕ
  pub name : Bytes
  pub what : Bytes

pub data Exception : Type 0 where
  http : HttpError → Exception
  json_error : Bytes → Exception
  soci_error : Bytes → Exception
  worker_stop : Exception
  uri_error : Bytes → Exception
  std_exception : Bytes → Exception

-- a call that returns or throws, with the state that it leaves either way
pub data Outcome (S A : Type 0) : Type 0 where
  ok : A → S → Outcome S A
  throw : Exception → S → Outcome S A

-- `char buffer[512]`, which `strlcpy` fills with 511 bytes at most and a terminator
abbrev pub buffer_size : ℕ
buffer_size = 512

unfoldable pub strlcpy : ℕ → Bytes → Bytes
strlcpy zero src = []
strlcpy (suc n) src = take n src

-- `Error(msg, code, name)`
unfoldable pub make_error : Bytes → ℕ → Bytes → HttpError
make_error msg code name =
    let prefix =
      if starts_with name msg then [] else name ++ (codes " [" ++ (decimal code ++ codes "]: ")) in
    let body = if is_empty msg then codes "Unknown Error" else msg in
    record { code = code; name = name; what = strlcpy buffer_size (prefix ++ body) }

-- the `DEFINE_ERROR` lines: the code and the name of each class
abbrev pub error_classes : List (ℕ × Bytes)
error_classes =
    (300, codes "MULTIPLE_CHOICES")
    ∷ (301, codes "MOVED_PERMANENTLY")
    ∷ (302, codes "MOVED_TEMPORARILY")
    ∷ (303, codes "SEE_OTHER")
    ∷ (304, codes "NOT_MODIFIED")
    ∷ (305, codes "USE_PROXY")
    ∷ (307, codes "TEMPORARY_REDIRECT")
    ∷ (400, codes "BAD_REQUEST")
    ∷ (401, codes "UNAUTHORIZED")
    ∷ (402, codes "PAYMENT_REQUIRED")
    ∷ (403, codes "FORBIDDEN")
    ∷ (404, codes "NOT_FOUND")
    ∷ (405, codes "METHOD_NOT_ALLOWED")
    ∷ (406, codes "NOT_ACCEPTABLE")
    ∷ (407, codes "PROXY_AUTHENTICATION_REQUIRED")
    ∷ (408, codes "REQUEST_TIME_OUT")
    ∷ (409, codes "CONFLICT")
    ∷ (410, codes "GONE")
    ∷ (411, codes "LENGTH_REQUIRED")
    ∷ (412, codes "PRECONDITION_FAILED")
    ∷ (413, codes "REQUEST_ENTITY_TOO_LARGE")
    ∷ (414, codes "REQUEST_URI_TOO_LARGE")
    ∷ (415, codes "UNSUPPORTED_MEDIA_TYPE")
    ∷ (416, codes "RANGE_NOT_SATISFIABLE")
    ∷ (417, codes "EXPECTATION_FAILED")
    ∷ (422, codes "UNPROCESSABLE_ENTITY")
    ∷ (423, codes "LOCKED")
    ∷ (424, codes "FAILED_DEPENDENCY")
    ∷ (426, codes "UPGRADE_REQUIRED")
    ∷ (500, codes "INTERNAL_SERVER_ERROR")
    ∷ (501, codes "NOT_IMPLEMENTED")
    ∷ (502, codes "BAD_GATEWAY")
    ∷ (503, codes "SERVICE_UNAVAILABLE")
    ∷ (504, codes "GATEWAY_TIME_OUT")
    ∷ (505, codes "VERSION_NOT_SUPPORTED")
    ∷ (506, codes "VARIANT_ALSO_VARIES")
    ∷ (507, codes "INSUFFICIENT_STORAGE")
    ∷ (510, codes "NOT_EXTENDED")
    ∷ []

-- the `case` labels of `throw_from_code`; each throws the class of its own code
abbrev pub switch_codes : List ℕ
switch_codes =
    300 ∷ 301 ∷ 302 ∷ 303 ∷ 304 ∷ 305 ∷ 307 ∷ 400 ∷ 401 ∷ 402 ∷ 403 ∷ 404 ∷ 405 ∷ 406 ∷ 407 ∷ 408
    ∷ 409 ∷ 410 ∷ 411 ∷ 412 ∷ 413 ∷ 414 ∷ 415 ∷ 416 ∷ 417 ∷ 422 ∷ 423 ∷ 424 ∷ 426 ∷ 500 ∷ 501 ∷ 502
    ∷ 503 ∷ 504 ∷ 505 ∷ 506 ∷ 507 ∷ 510 ∷ []

pub class_name : ℕ → List (ℕ × Bytes) → Option Bytes
class_name code [] = none
class_name code ((c, name) ∷ rest) = if c == code then some name else class_name code rest

contains : ℕ → List ℕ → Bool
contains code [] = false
contains code (c ∷ rest) = if c == code then true else contains code rest

-- `ERR_CODE_<code>(msg)`; `none` if there is no such class
pub error_of_code : Bytes → ℕ → Option HttpError
error_of_code msg code = elim (class_name code error_classes) [
  | none ↦ none
  | some name ↦ some (make_error msg code name)
]

-- what `throw_from_code` throws
pub throw_from_code : ℕ → Bytes → Option HttpError
throw_from_code code msg =
    if contains code switch_codes then error_of_code msg code else error_of_code msg 500

-- the classes that the modelled code throws by name
abbrev pub internal_server_error : Bytes → Exception
internal_server_error msg = http (make_error msg 500 (codes "INTERNAL_SERVER_ERROR"))

abbrev pub precondition_failed : Bytes → Exception
precondition_failed msg = http (make_error msg 412 (codes "PRECONDITION_FAILED"))

abbrev pub not_found : Bytes → Exception
not_found msg = http (make_error msg 404 (codes "NOT_FOUND"))

-- `UriError(msg)` of gearbox/core/Uri.cc
unfoldable pub make_uri_error : Bytes → Exception
unfolding strlcpy
make_uri_error msg = uri_error (strlcpy buffer_size (codes "Uri Error: " ++ msg))

-- running one fallible call after another on the same object
infixl 5 ◌>>=◌ ◌>>◌
abbrev pub ◌>>=◌ : {S A B : Type 0} → (S → Outcome S A) → (A → S → Outcome S B) → S → Outcome S B
◌>>=◌ m k s = elim (m s) [ ok a s' ↦ k a s' | throw e s' ↦ throw e s' ]

abbrev pub ◌>>◌ : {S B : Type 0} → (S → Outcome S (Unit {0})) → (S → Outcome S B) → S → Outcome S B
m >> k = m >>= λ _. k
