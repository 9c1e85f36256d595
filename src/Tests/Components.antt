-- ===== src/Tests/Components.antt =====
-- The theorems on the parts of the connector, at concrete inputs.
use authrim_wordwarden.Prelude.{
  ◌≡◌, ◌≢◌, ◌⊎◌, ◌+◌, ◌≤◌, refl, true, false, List, [], ◌∷◌, Text, lit, text_beq, pos, lookup,
  length, insert, arith,
}
use authrim_wordwarden.GoTime.{Time, add}
use authrim_wordwarden.Storm.{
  StormProtectionPolicy, malformed, replay, new_connector_storms, default_storm_protection_policy,
  state_of, blocked, limit,
}
use authrim_wordwarden.Storm.Policy.{IsActive, default_policy-IsActive}
use authrim_wordwarden.Storm.Counting.{storm_threshold, record_all}
use authrim_wordwarden.Storm.Ending.{storm_block_ends, recorded, was_reset, apply_all}
use authrim_wordwarden.Replay.{new_replay_cache, remember, sweep}
use authrim_wordwarden.Replay.Window.{replay_once, after_calls}
use authrim_wordwarden.Replay.History.{replay_refines_history, remember_all, accept_all}
use authrim_wordwarden.Audit.{Event}
use authrim_wordwarden.Http.Counters.{record_metrics, counters_bounded}
use authrim_wordwarden.Http.Metrics.{max_metric_counters}
use authrim_wordwarden.Directory.{
  VerifyPasswordResult, failed_verification, policy_required_verification,
  source_unavailable_verification, is_success, safe_reason, result_success, credential_result,
}
use authrim_wordwarden.Directory.Verdicts.{is_success_iff, refusals}

abbrev policy : StormProtectionPolicy
policy = record {
  window_ms = pos 0;
  block_ms = pos 30000;
  malformed_request_limit = pos 2;
  replay_limit = pos 10;
  directory_error_limit = pos 5;
}

-- Two malformed requests a second apart block a connector whose limit is two.
storm_threshold_example :
    blocked (record_all (new_connector_storms policy) malformed (5 ∷ 1000000005 ∷ [])) malformed 7
    ≡ true
unfolding new_connector_storms default_storm_protection_policy state_of limit
storm_threshold_example =
    storm_threshold (new_connector_storms policy) malformed 10000 30000 2 5 (1000000005 ∷ []) 7
      (record {
        window = refl;
        block = refl;
        limit_is = refl;
        window_fits = omega arith;
        block_fits = omega arith;
      })
      refl ((omega arith, omega arith), tt)

storm_block_ends_example :
    blocked
      (apply_all
        (new_connector_storms policy)
        (recorded malformed 5 ∷ was_reset replay ∷ recorded malformed 6 ∷ []))
      malformed
      30000000006
    ≡ false
unfolding default_storm_protection_policy
storm_block_ends_example =
    storm_block_ends policy 30000 6
      (recorded malformed 5 ∷ was_reset replay ∷ recorded malformed 6 ∷ []) malformed 30000000006
      refl (omega arith) (omega arith, (tt, (omega arith, tt))) (omega arith)

default_policy-IsActive_example :
    IsActive (default_storm_protection_policy policy)
    × (IsActive policy → default_storm_protection_policy policy ≡ policy)
default_policy-IsActive_example = default_policy-IsActive policy

replay_once_example :
    (remember
      (after_calls (remember (new_replay_cache (pos 10)) (lit "a") 1).0 ((lit "b", 9) ∷ []))
      (lit "a")
      11).1
    ≡ false
unfolding new_replay_cache remember sweep lookup add
replay_once_example =
    replay_once (new_replay_cache (pos 10)) (lit "a") 1 11 ((lit "b", 9) ∷ []) refl
      (omega arith, tt) (omega arith)

abbrev calls : List (Text × Time)
calls = (lit "a", 1) ∷ (lit "a", 11) ∷ (lit "b", 11) ∷ (lit "a", 12) ∷ []

replay_refines_history_example :
    remember_all (new_replay_cache (pos 10)) calls ≡ accept_all (pos 10) [] calls
replay_refines_history_example =
    replay_refines_history (pos 10) calls
      (omega arith, (omega arith, (omega arith, (omega arith, tt))))

-- The key is taken, refused while its entry lives, and taken again when it has expired.
calls_run : remember_all (new_replay_cache (pos 10)) calls ≡ (true ∷ false ∷ true ∷ true ∷ [])
unfolding new_replay_cache remember sweep lookup insert add remember_all lit text_beq
calls_run = refl

abbrev event : Event
event = record {
  event_type = lit "e";
  tenant_id = lit "t1";
  connector_id = lit "c1";
  request_id = [];
  key_id = [];
  result = lit "ok";
  reason = [];
  error_code = [];
  retryable = false;
  directory_status = [];
  username_hash = [];
}

counters_bounded_example : length (record_metrics [] (event ∷ event ∷ [])) ≤ max_metric_counters + 1
counters_bounded_example = counters_bounded (event ∷ event ∷ [])

refusals_example :
    (is_success (failed_verification []) ≡ false)
    × (is_success (policy_required_verification []) ≡ false)
    × (is_success (source_unavailable_verification []) ≡ false)
    × (safe_reason (failed_verification []) ≢ [])
    × (safe_reason (policy_required_verification []) ≢ [])
    × (safe_reason (source_unavailable_verification []) ≢ [])
refusals_example = refusals []

abbrev found : VerifyPasswordResult
found = record (failed_verification []) { result = []; success = true }

is_success_iff_example :
    (found.result ≡ result_success) ⊎ ((found.result ≡ []) × (found.success ≡ true))
unfolding is_success credential_result lit text_beq
is_success_iff_example = (is_success_iff found).0 refl
