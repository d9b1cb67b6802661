-- ===== src/Examples/Reliability.antt =====
-- Tests and witnesses of the reliability tooling.
use self_learning_trading_ag.Base.{
  ℕ, zero, suc, ◌≡◌, refl, true, false, none, some, [], Text, text, text_eq, ok, raise,
}
use self_learning_trading_ag.Int.{pos}
use self_learning_trading_ag.Core.Errors.{
  DomainError, rate_limited, risk_block, error_code, retryable, http_status_for, get_or,
}
use self_learning_trading_ag.Tooling.Http.{
  Answer, response, get_json, map_http_error, status_class, detail, take, decode, Gives,
  get_json-Gives,
}
use self_learning_trading_ag.Tooling.Policy.{
  domain, Call, settle, tries_again, retry_from, retry_run, Breaker, note, breaker_run, reset,
  Policy, run, core, limited, guarded, circuit_open,
}
use self_learning_trading_ag.Tooling.Policy.Laws.{EndsTrying, retry_run-Tries}
use self_learning_trading_ag.Tooling.Policy.Breaking.{
  fresh, erred, IsSound, Reached-IsSound, run-open,
}

unfoldable tooling : Unit {0}
unfolding error_code retryable http_status_for get_or get_json map_http_error status_class detail
    take decode settle tries_again retry_from retry_run note breaker_run reset run core limited
    guarded text_eq
tooling = tt

abbrev limit_error : DomainError
limit_error = record { class = rate_limited; message = []; provider = none }

-- A provider that answers with its state once the state is zero, and counts down before.
abbrev countdown : Call ℕ ℕ
countdown zero = (ok 7, 0)
countdown (suc n) = (raise (domain limit_error), n)

abbrev no_sleep : ℕ → ℕ → ℕ
no_sleep n s = s

third_time : retry_run (pos 3) no_sleep countdown 2 ≡ some (ok 7, 0)
unfolding tooling
third_time = refl

gives_up : retry_run (pos 3) no_sleep countdown 5 ≡ some (raise limit_error, 2)
unfolding tooling
gives_up = refl

retry_run-Tries_example : EndsTrying (pos 3) no_sleep countdown 5
retry_run-Tries_example = retry_run-Tries (pos 3) no_sleep countdown 5

abbrev tripped : Breaker
tripped =
    (breaker_run countdown
      (record { failure_threshold = pos 1; failures = 0; is_open = false }, 5)).1.0

Reached-IsSound_example : IsSound (pos 1) 1 tripped
Reached-IsSound_example = Reached-IsSound (erred countdown 5 limit_error refl refl fresh)

one_failure : tripped ≡ record { failure_threshold = pos 1; failures = 1; is_open = true }
unfolding tooling
one_failure = refl

abbrev open_breaker : Breaker
open_breaker = record { failure_threshold = pos 1; failures = 1; is_open = true }

abbrev policy : Policy ℕ ℕ
policy = record {
  retry = some (pos 3);
  has_breaker = true;
  limiter = none;
  timeout = none;
  sleep = λ n s. suc s;
}

run-open_example :
    run policy countdown (open_breaker, 4) ≡ some (raise (domain circuit_open), (open_breaker, 6))
run-open_example = run-open policy countdown open_breaker 4 refl refl

-- Numbers are shown by a fixed text here.
abbrev shown : ℕ → Text
shown n = text "503"

too_many : http_status_for (record { class = risk_block; message = []; provider = none }) ≡ 400
unfolding tooling
too_many = refl

abbrev unavailable : Answer ℕ
unavailable = response 503 (text "maintenance") none

get_json-Gives_example :
    Gives (text "kraken") unavailable (get_json shown (text "kraken") unavailable)
get_json-Gives_example = get_json-Gives shown (text "kraken") unavailable
