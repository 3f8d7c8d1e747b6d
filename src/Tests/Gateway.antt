-- ===== src/Tests/Gateway.antt =====
-- The attempts of a request, at concrete outcomes.
use pogu.Prelude.{
  ℕ, zero, suc, ◌≡◌, ◌≢◌, ◌⊎◌, ◌==◌, ◌&&◌, ltb, if◌then◌else◌, true, false, length, refl, [], ◌∷◌,
  none, some,
}
use pogu.Service.Routing.{Target}
use pogu.Gateway.Errors.{
  upstream, Cause, ProxyError, ErrorCategory, Status, Message, classify, timeout,
  classify_error_category, success, classify_agrees, classify-ne-timeout,
}
use pogu.Gateway.Attempts.{
  Outcome, no_secret, proxied, passed, failed, route_request, attempt_started, attempt_finished,
  request_finished,
}
use pogu.Gateway.Attempts.Plan.{Plan, plan, answer_of, last_status}
use pogu.Gateway.Attempts.Answer.{Answers, AllRetried, route_request_reply}
use pogu.Gateway.Attempts.Log.{over, waiting, read_all, route_request_logged}
use pogu.Tests.{openrouter, key_a, key_b, mimo}

-- The first key is rate limited, the second one serves the request.
abbrev pub limited_once : ℕ → Outcome
limited_once zero = no_secret Cause.other
limited_once (suc zero) = proxied none (some (upstream 429 [] none)) none
limited_once (suc (suc n)) = proxied (some 200) none none

abbrev pub one_target : Target
one_target = record {
  route = record { provider = openrouter; model = mimo };
  keys = key_a ∷ key_b ∷ [];
}

limited_once_runs : route_request limited_once (one_target ∷ []) ≡ (
  attempt_started 1 1 1
      ∷ attempt_finished 1 (some 429) false ErrorCategory.rate_limit
      ∷ attempt_started 2 1 2
      ∷ attempt_finished 2 (some 200) true ErrorCategory.none_
      ∷ request_finished Status.success (some 200) ErrorCategory.none_
      ∷ [],
  passed (some 200),
)
unfolding route_request
limited_once_runs = refl

route_request_logged_example :
    (rest : Plan) × (read_all
        (route_request limited_once (one_target ∷ [])).0
        (plan (one_target ∷ []), waiting 0)
      ≡ some (rest, over))
route_request_logged_example =
    route_request_logged limited_once one_target [] key_a (key_b ∷ []) refl

route_request_reply_example :
    ((n : ℕ) × Answers limited_once 0 (length (plan (one_target ∷ []))) n
      × ((route_request limited_once (one_target ∷ [])).1 ≡ answer_of (limited_once n)))
    ⊎ (AllRetried limited_once 0 (length (plan (one_target ∷ [])))
        × ((message : Message) × ((route_request limited_once (one_target ∷ [])).1
              ≡ failed
                  (if ltb 1 (length (one_target ∷ []))
                      && last_status limited_once 502 0 (length (plan (one_target ∷ []))) == 502
                    then 503
                    else last_status limited_once 502 0 (length (plan (one_target ∷ []))))
                  message)))
route_request_reply_example = route_request_reply limited_once (one_target ∷ [])

abbrev expired : ProxyError
expired = upstream 0 [] (some Cause.deadline_exceeded)

classify_agrees_example :
    ((classify (some expired)).0 ≡ classify_error_category (some expired))
    × ((classify (some expired)).2 ≡ true → some expired ≡ none)
    × (((classify (some expired)).1 ≡ success → (classify (some expired)).2 ≡ true)
        × ((classify (some expired)).2 ≡ true → (classify (some expired)).1 ≡ success))
classify_agrees_example = classify_agrees (some expired)

classify-ne-timeout_example :
    ((classify (some expired)).0 ≢ timeout) × (classify_error_category (some expired) ≢ timeout)
classify-ne-timeout_example = classify-ne-timeout (some expired)
