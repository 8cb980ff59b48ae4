-- ===== src/Tests/Services.antt =====
-- The services around the orchestrator: rate limits, schedules, leases, rules and documents.
use worshiptool_churchtools.Prelude.{
  ℕ, zero, suc, ◌+◌, ◌≤◌, ◌<◌, ◌≡◌, refl, String, true, none, some, [], ◌∷◌, arith,
}
use worshiptool_churchtools.Sync.Errors.{ok}
use worshiptool_churchtools.RateLimit.Memory.{Request, check_all}
use worshiptool_churchtools.RateLimit.Window.{passed, passed-bounded}
use worshiptool_churchtools.RateLimit.Enforce.{
  AllAllowed, Limiter, PolicyName, Scope, auth_rate_policy, checks_of, enforce_auth_rate_limit,
  enforce_auth_rate_limit-AllAllowed, enforce_checks, checked,
}
use worshiptool_churchtools.Scheduling.{
  Cron, Scheduled, next_schedule_after, next_schedule_after-first, nth,
}
use worshiptool_churchtools.EventFilters.{Texts, canonicalize_persisted_event_rules, rules_json}
use worshiptool_churchtools.EventFilters.Stable.{canonicalize_idempotent}
use worshiptool_churchtools.Sync.Serialization.Json.{
  Json, array, cons, nil, object, field, text, end,
}
use worshiptool_churchtools.Sync.Serialization.Write.{plan_fields}
use worshiptool_churchtools.Sync.Serialization.Read.{sync_plan_from_dict}
use worshiptool_churchtools.Sync.Serialization.RoundTrip.{sync_plan_from_dict-plan_fields}
use worshiptool_churchtools.Tests.Documents.{format, from_iso-iso, stored_plan}

abbrev attempt : ℕ → Request
attempt now = record { now = now; key = "login:ip:x"; limit = 1; window_seconds = 900 }

passed-bounded_example :
    passed "login:ip:x" 1 (check_all (attempt 900 ∷ attempt 901 ∷ attempt 902 ∷ []) []) ≤ 1
passed-bounded_example =
    passed-bounded "login:ip:x" 1 1 (attempt 900 ∷ attempt 901 ∷ attempt 902 ∷ []) []
      ((omega arith, (omega arith, tt)), ((omega arith, tt), (tt, tt)))
      ((λ e. omega arith), ((λ e. omega arith), ((λ e. omega arith), tt)))

-- A limiter that counts all its checks.
abbrev counting : Limiter ℕ
counting = record {
  check = λ key limit window_seconds n. (some (record { allowed = true; retry_after = 1 }), n + 1);
  fallback = λ key limit window_seconds n. (record { allowed = true; retry_after = 1 }, n + 1);
}

abbrev safe_key : PolicyName → Scope → String → String
safe_key name scope value = value

enforce_auth_rate_limit_example :
    AllAllowed counting
      (checks_of safe_key PolicyName.login "10.0.0.1" "a" true)
      (auth_rate_policy PolicyName.login).window_seconds
      0
unfolding enforce_auth_rate_limit enforce_checks checked checks_of
enforce_auth_rate_limit_example =
    enforce_auth_rate_limit-AllAllowed counting safe_key (λ s. s) (some "10.0.0.1") PolicyName.login
      "a" true 0 refl

-- An iterator that repeats its instant once.
abbrev cron : Cron ℕ
cron = record { start = λ expression zone base. some base; get_next = λ i. some (i, i + 1) }

before_100 : (j t : ℕ) → j < 1 → nth cron j 100 ≡ some t → t ≤ 100
unfolding nth
before_100 zero t h e = ground (arith, e)
before_100 (suc j) t h e = absurd (omega (arith, h))

at_1 : nth cron 1 100 ≡ some 101
unfolding nth
at_1 = refl

next_schedule_after-first_example :
    next_schedule_after cron "cron" none (some "0 8 * * *") "UTC" 100 ≡ Scheduled.at 101
next_schedule_after-first_example =
    next_schedule_after-first cron none "0 8 * * *" "UTC" 100 101 1 100 refl refl (omega arith) at_1
      (omega arith) before_100

abbrev texts : Texts
texts = record { strip = λ s. s; show = λ n. "1"; text_length = λ s. 2 }

abbrev stored_rules : Json
stored_rules =
    array (
      cons (object (field "calendar_id" (text "c1") (field "name_contains" (text "Abend") end)))
        nil)

canonicalize_idempotent_example :
    canonicalize_persisted_event_rules texts
      (rules_json (canonicalize_persisted_event_rules texts stored_rules))
    ≡ canonicalize_persisted_event_rules texts stored_rules
canonicalize_idempotent_example = canonicalize_idempotent texts (λ s. refl) stored_rules

sync_plan_from_dict_example :
    sync_plan_from_dict format (plan_fields format stored_plan) ≡ ok stored_plan
sync_plan_from_dict_example = sync_plan_from_dict-plan_fields format from_iso-iso stored_plan
