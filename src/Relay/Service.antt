-- ===== src/Relay/Service.antt =====
-- What one request of internal/adapters/relay/client.go does.
use authrim_wordwarden.Prelude.{
  ◌≡◌, ◌≢◌, refl, ap, ◌∙◌, inl, inr, true, false, ◌∷◌, text_eq, text_iff, ◌==◌, arith, Bool-cases,
  suc, ◌-◌, ◌<◌, ltb,
}
use authrim_wordwarden.GoTime.{Time}
use authrim_wordwarden.Audit.{Event}
use authrim_wordwarden.Directory
use authrim_wordwarden.Directory.{
  Answer, answered, failed, VerifyPasswordResult, result_success, result_source_unavailable,
  credential_result, is_success, safe_reason,
}
use authrim_wordwarden.Replay.{remember}
use authrim_wordwarden.Storm.{malformed, replay, directory_error}
use authrim_wordwarden.Hmac.Canonical.{Crypto}
use authrim_wordwarden.Relay.Messages.{
  VerifyRequestMessage, VerifyErrorMessage, VerifyResponseMessage, ReplyMessage, verify_response,
  verify_error,
}
use authrim_wordwarden.Relay.State.{
  RelayClient, take_limit, free_limit, emit_event, relay_storm_blocked, record_relay_storm,
  reset_relay_storm, limit_of,
}
use authrim_wordwarden.Relay.Verification.{
  Progress, answered_with, asking, valid_verify_request, relay_replay_key, error_message,
  relay_event, refuse, receive_malformed, receive_limited, receive_remembered, receive, response_to,
  success_response, conclude_unavailable, conclude, directory_call, process_verify_request,
}

-- One event has been added, for the request.
pub record IsAudited (c : RelayClient) (request : VerifyRequestMessage) (c' : RelayClient)
    : Type 0 where
  pub event : Event
  pub added : c'.audit ≡ event ∷ c.audit
  pub of_request : event.request_id ≡ request.request_id
  pub of_connector : event.connector_id ≡ c.config.connector_id
  pub used : c'.used ≡ c.used

module _ (crypto : Crypto) where
  -- What the first step leaves.
  abbrev Received : RelayClient → Time → VerifyRequestMessage → Progress → Type 0
  Received c now request (answered_with c' reply) =
      IsAudited c request c' × ((r : VerifyResponseMessage) → reply ≢ verify_response r)
  Received c now request (asking c') =
      (valid_verify_request c request ≡ true)
      × (relay_storm_blocked c replay now ≡ false)
      × (relay_storm_blocked c directory_error now ≡ false)
      × ((remember c.replay (relay_replay_key request) now).1 ≡ true)
      × (c'.replay ≡ (remember c.replay (relay_replay_key request) now).0)
      × (c'.audit ≡ c.audit)
      × (c'.config ≡ c.config)
      × (c'.used ≡ suc c.used)
      × (c.used < limit_of c.config)

  refused-Received :
      (c c' : RelayClient) (now : Time) (request : VerifyRequestMessage) (event : Event)
      (e : VerifyErrorMessage)
      → c'.audit ≡ event ∷ c.audit
      → event.request_id ≡ request.request_id
      → event.connector_id ≡ c.config.connector_id
      → c'.used ≡ c.used
      → Received c now request (answered_with c' (verify_error e))
  refused-Received c c' now request event e added of_request of_connector used = (
    record {
      event = event;
      added = added;
      of_request = of_request;
      of_connector = of_connector;
      used = used;
    },
    λ r same. cc same,
  )

  malformed-Received :
      (c : RelayClient) (now : Time) (request : VerifyRequestMessage)
      → Received c now request (receive_malformed crypto c now request)
  unfolding receive_malformed error_message relay_event emit_event record_relay_storm
  malformed-Received c now request = elim (Bool-cases (relay_storm_blocked c malformed now)) [
    | inl stormy ↦
        rw (stormy, receive_malformed) (refused-Received c _ now request _ _ refl refl refl refl)
    | inr calm ↦
        rw (calm, receive_malformed) (refused-Received c _ now request _ _ refl refl refl refl)
  ]

  receive-Received :
      (c : RelayClient) (now : Time) (request : VerifyRequestMessage)
      → Received c now request (receive crypto c now request)
  unfolding receive receive_remembered receive_limited refuse error_message relay_event emit_event
      free_limit take_limit record_relay_storm relay_storm_blocked
  receive-Received c now request = elim (Bool-cases (valid_verify_request c request)) [
    | inr invalid ↦ rw (invalid, receive) (malformed-Received c now request)
    | inl valid ↦ elim (Bool-cases (relay_storm_blocked c replay now)) [
      | inl stormy ↦
          rw (valid, stormy, receive) (refused-Received c _ now request _ _ refl refl refl refl)
      | inr calm ↦ elim (Bool-cases (remember c.replay (relay_replay_key request) now).1) [
        | inr known ↦
            rw (valid, calm, known, receive)
              (refused-Received c _ now request _ _ refl refl refl refl)
        | inl fresh ↦ elim (Bool-cases (ltb c.used (limit_of c.config))) [
          | inr full ↦
              rw (valid, calm, fresh, full, receive)
                (refused-Received c _ now request _ _ refl refl refl refl)
          | inl room ↦ elim (Bool-cases (relay_storm_blocked c directory_error now)) [
            | inl failing ↦
                rw (valid, calm, fresh, room, failing, receive)
                  (refused-Received c _ now request _ _ refl refl refl (ground arith))
            | inr quiet ↦
                rw (valid, calm, fresh, room, quiet, receive)
                  (valid, calm, quiet, fresh, refl, refl, refl, refl, ground arith)
          ]
        ]
      ]
    ]
  ]

  -- What the second step leaves, for a client that has taken a slot.
  abbrev IsConcluded :
      RelayClient → VerifyRequestMessage → Answer → RelayClient × ReplyMessage → Type 0
  IsConcluded c request answer (c', reply) =
      ((event : Event) × (c'.audit ≡ event ∷ c.audit)
        × (event.request_id ≡ request.request_id)
        × (event.connector_id ≡ c.config.connector_id)
        × (c'.used ≡ c.used - 1))
      × ((r : VerifyResponseMessage)
          → reply ≡ verify_response r
          → r.result ≡ result_success
          → (a : VerifyPasswordResult) × (answer ≡ answered a)
            × (is_success a ≡ true)
            × (r ≡ success_response crypto request a))

  conclude-IsConcluded :
      (c : RelayClient) (now : Time) (request : VerifyRequestMessage) (answer : Answer)
      → IsConcluded c request answer (conclude crypto c now request answer)
  unfolding conclude conclude_unavailable refuse error_message relay_event emit_event free_limit
      record_relay_storm reset_relay_storm is_success response_to
  conclude-IsConcluded c now request (failed e) =
      ((_, refl, refl, refl, refl), λ r same success. absurd (cc same))
  conclude-IsConcluded c now request (answered a) =
      elim (Bool-cases (credential_result a == result_source_unavailable)) [
        | inl lost ↦
            rw (lost, conclude) ((_, refl, refl, refl, refl), λ r same success. absurd (cc same))
        | inr known ↦ elim (Bool-cases (credential_result a == result_success)) [
          | inl granted ↦
              rw (known, granted, conclude)
                ((_, refl, refl, refl, refl), λ r same success. (a, refl, granted, cc same))
          | inr denied ↦
              rw (known, denied, conclude)
                (
                  (_, refl, refl, refl, refl),
                  λ r same success. absurd (contradiction r same success denied),
                )
        ]
      ]
    where
      contradiction :
          (r : VerifyResponseMessage)
          → verify_response (response_to crypto request a) ≡ verify_response r
          → r.result ≡ result_success
          → (credential_result a == result_success) ≡ false
          → ⊥
      contradiction r same success denied =
          let q : response_to crypto request a ≡ r = cc same in
          cc (denied, (text_iff _ _).1 (ap (λ x. x.result) q ∙ success))

  -- What a success reply shows of the request and of the directory's answer.
  pub record IsGranted (c : RelayClient) (now : Time) (request : VerifyRequestMessage)
      (directory : Directory.VerifyPasswordRequest → Answer) (r : VerifyResponseMessage)
      : Type 0 where
    pub answer : VerifyPasswordResult
    pub answered_so : directory (directory_call crypto request) ≡ answered answer
    pub confirmed : is_success answer ≡ true
    pub response : r ≡ success_response crypto request answer
    pub valid : valid_verify_request c request ≡ true
    pub fresh : (remember c.replay (relay_replay_key request) now).1 ≡ true

  record IsServed (c : RelayClient) (now : Time) (request : VerifyRequestMessage)
      (directory : Directory.VerifyPasswordRequest → Answer) (o : RelayClient × ReplyMessage)
      : Type 0 where
    pub event : Event
    pub added : o.0.audit ≡ event ∷ c.audit
    pub of_request : event.request_id ≡ request.request_id
    pub of_connector : event.connector_id ≡ c.config.connector_id
    pub used : o.0.used ≡ c.used
    pub granted :
        (r : VerifyResponseMessage)
        → o.1 ≡ verify_response r
        → r.result ≡ result_success
        → IsGranted c now request directory r

  IsServed-from :
      (c : RelayClient) (now : Time) (request : VerifyRequestMessage) (later : Time)
      (directory : Directory.VerifyPasswordRequest → Answer) (p : Progress)
      → Received c now request p
      → IsServed c now request directory (elim p as (λ x. RelayClient × ReplyMessage) [
        | answered_with c' reply ↦ (c', reply)
        | asking c' ↦ conclude crypto c' later request (directory (directory_call crypto request))
      ])
  IsServed-from c now request later directory (answered_with c' reply) (audited, error) = record {
    event = audited.event;
    added = audited.added;
    of_request = audited.of_request;
    of_connector = audited.of_connector;
    used = audited.used;
    granted = λ r same success. absurd (error r same);
  }
  IsServed-from c now request later directory (asking c')
        (valid, calm, quiet, fresh, cache, audit, config, taken, room) =
      let ((event, added, of_request, of_connector, used), granted) =
        conclude-IsConcluded c' later request (directory (directory_call crypto request)) in
      record {
        event = event;
        added = added ∙ ap (λ l. event ∷ l) audit;
        of_request = of_request;
        of_connector = of_connector ∙ ap (λ o. o.connector_id) config;
        used = ground (arith, used, taken);
        granted = λ r same success.
            let (a, e, ok, is) = granted r same success in
            record {
              answer = a;
              answered_so = e;
              confirmed = ok;
              response = is;
              valid = valid;
              fresh = fresh;
            };
      }

  process_verify_request-IsServed :
      (c : RelayClient) (now : Time) (request : VerifyRequestMessage) (later : Time)
      (directory : Directory.VerifyPasswordRequest → Answer)
      → IsServed c now request directory
          (process_verify_request crypto c now request later directory)
  unfolding process_verify_request
  process_verify_request-IsServed c now request later directory =
      IsServed-from c now request later directory _ (receive-Received c now request)

  -- Every request to the relay's client, valid or not, and whatever the directory answers, writes
  -- one audit event, with the request's identifier and the client's connector, and leaves as many
  -- slots in use as before.
  pub process_verify_request-IsAudited :
      (c : RelayClient) (now : Time) (request : VerifyRequestMessage) (later : Time)
      (directory : Directory.VerifyPasswordRequest → Answer)
      → IsAudited c request (process_verify_request crypto c now request later directory).0
  process_verify_request-IsAudited c now request later directory =
      let h = process_verify_request-IsServed c now request later directory in
      record {
        event = h.event;
        added = h.added;
        of_request = h.of_request;
        of_connector = h.of_connector;
        used = h.used;
      }

  -- A reply of the relay's client that says "success" is one to a valid request, of the client's
  -- tenant and connector, whose identifier was not in the replay cache, and for which the directory
  -- answered a success to this user name and password, whose subject, attributes and groups it
  -- gives.
  pub process_verify_request-IsGranted :
      (c : RelayClient) (now : Time) (request : VerifyRequestMessage) (later : Time)
      (directory : Directory.VerifyPasswordRequest → Answer) (r : VerifyResponseMessage)
      → (process_verify_request crypto c now request later directory).1 ≡ verify_response r
      → r.result ≡ result_success
      → IsGranted c now request directory r
  process_verify_request-IsGranted c now request later directory r =
      (process_verify_request-IsServed c now request later directory).granted r
