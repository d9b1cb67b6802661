-- ===== src/Tooling/Http.antt =====
-- app/infrastructure/tooling/http.py: how an HTTP answer becomes an error of the taxonomy. What
-- the client of httpx gives is a parameter, as one of its four kinds of answers; so is the text of
-- a status in a message.
use self_learning_trading_ag.Base.{
  ℕ, zero, suc, ◌≤◌, ◌<◌, ◌≡◌, refl, ◌⊎◌, ◌↔◌, inl, inr, true, false, ◌&&◌, ◌||◌, Option, none,
  some, [], ◌∷◌, ◌++◌, arith, Text, text, is_empty, Except, ok, raise, ltb, leb, ◌==◌,
  if◌then◌else◌, Bool-cases,
}
use self_learning_trading_ag.Core.Errors.{
  DomainError, ErrorClass, authentication, rate_limited, provider_timeout, provider_unavailable,
  provider_validation, malformed_data, retryable,
}

-- The class of a status of 400 or more, as `map_http_error` picks it.
unfoldable pub status_class : ℕ → ErrorClass
status_class status =
    if (status == 401) || (status == 403)
    then authentication
    else if status == 429
    then rate_limited
    else if (status == 408) || (status == 504)
    then provider_timeout
    else if leb 500 status && ltb status 600
    then provider_unavailable
    else provider_validation

-- The message: the provider, the status, and what the caller adds.
unfoldable pub detail : (ℕ → Text) → ℕ → Text → Text → Text
detail show status provider message =
    let head = provider ++ (text " http " ++ show status) in
    if is_empty message then head else head ++ (text ": " ++ message)

-- `map_http_error`
unfoldable pub map_http_error : (ℕ → Text) → ℕ → Text → Text → DomainError
map_http_error show status provider message = record {
  class = status_class status;
  message = detail show status provider message;
  provider = some provider;
}

-- What a request of the client gives; `json` is `none` where the body is not JSON.
pub data Answer (A : Type 0) : Type 0 where
  timed_out transport_error : Answer A
  response : (status_code : ℕ) (body : Text) (json : Option A) → Answer A

-- The first characters of a text.
unfoldable pub take : ℕ → Text → Text
take zero s = []
take (suc n) [] = []
take (suc n) (c ∷ s) = c ∷ take n s

-- The parsing of the body.
unfoldable pub decode : {A : Type 0} → Text → Option A → Except DomainError A
decode provider (some value) = ok value
decode provider none = raise (record {
  class = malformed_data;
  message = provider ++ text " returned a non-JSON payload";
  provider = some provider;
})

-- `JsonHttpClient.get_json`
unfoldable pub get_json : {A : Type 0} → (ℕ → Text) → Text → Answer A → Except DomainError A
get_json show provider timed_out = raise (record {
  class = provider_timeout;
  message = provider ++ text " request timed out";
  provider = some provider;
})
get_json show provider transport_error = raise (record {
  class = provider_unavailable;
  message = provider ++ text " transport error";
  provider = some provider;
})
get_json show provider (response status body json) =
    if leb 400 status
    then raise (map_http_error show status provider (take 200 body))
    else decode provider json

-- A status asks for another attempt exactly if it is 408, 429 or one of the server's.
status_class-retryable :
    (status : ℕ)
    → (retryable (status_class status) ≡ true)
      ↔ ((status ≡ 408) ⊎ (status ≡ 429) ⊎ (500 ≤ status) × (status < 600))
unfolding status_class retryable
status_class-retryable status = ground arith

-- The answers that another attempt may mend.
abbrev pub IsTransient : {A : Type 0} → Answer A → Type 0
IsTransient timed_out = Unit {0}
IsTransient transport_error = Unit {0}
IsTransient (response status body json) =
    (status ≡ 408) ⊎ (status ≡ 429) ⊎ (500 ≤ status) × (status < 600)

-- What comes of an answer.
pub data Gives {A : Type 0} (provider : Text) : Answer A → Except DomainError A → Type 0 where
  value :
      {status : ℕ} {body : Text} {v : A}
      → status < 400
      → Gives provider (response status body (some v)) (ok v)
  transient :
      {a : Answer A} (e : DomainError)
      → IsTransient a
      → retryable e.class ≡ true
      → e.provider ≡ some provider
      → Gives provider a (raise e)
  permanent :
      {status : ℕ} {body : Text} {json : Option A} (e : DomainError)
      → (400 ≤ status) ⊎ (json ≡ none)
      → (IsTransient (response status body json) → ⊥)
      → retryable e.class ≡ false
      → e.provider ≡ some provider
      → Gives provider (response status body json) (raise e)

decode-Gives :
    {A : Type 0} (provider : Text) {status : ℕ} (body : Text) (json : Option A)
    → status < 400
    → Gives provider (response status body json) (decode provider json)
unfolding decode retryable
decode-Gives provider body (some v) h = value h
decode-Gives provider body none h = permanent _ (inr refl) (λ t. ground arith) refl refl

-- A request returns the body's value for a status below 400 with a JSON body, and raises an error
-- that names the provider for any other answer. That error may be retried exactly after a timeout,
-- a transport error, or a status that is 408, 429 or between 500 and 599.
pub get_json-Gives :
    {A : Type 0} (show : ℕ → Text) (provider : Text) (a : Answer A)
    → Gives provider a (get_json show provider a)
unfolding get_json retryable map_http_error
get_json-Gives show provider timed_out = transient _ tt refl refl
get_json-Gives show provider transport_error = transient _ tt refl refl
get_json-Gives show provider (response status body json) = elim (Bool-cases (leb 400 status)) [
  | inr below ↦ rw (below, get_json) (decode-Gives provider body json (ground arith))
  | inl above ↦ elim (Bool-cases (retryable (status_class status))) [
    | inl may ↦
        rw (above, get_json)
          (transient (map_http_error show status provider (take 200 body))
            ((status_class-retryable status).0 may) may refl)
    | inr never ↦
        rw (above, get_json)
          (permanent (map_http_error show status provider (take 200 body)) (inl (ground arith))
            (λ t. cc (never, (status_class-retryable status).1 t)) never refl)
  ]
]
