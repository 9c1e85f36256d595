-- ===== src/Relay/Login.antt =====
-- The authentication of the connector at the relay, of internal/adapters/relay/client.go. Reading
-- and writing the messages is left out: a challenge comes in, and a response goes out.
use authrim_wordwarden.Prelude.{
  ◌≡◌, ◌&&◌, not, Bool, false, List, [], ◌∷◌, ◌++◌, Option, none, some, Text, lit, text_eq, ◌==◌,
  if◌then◌else◌, ℤ, All,
}
use authrim_wordwarden.GoText.Splitting.{split, join, Lacks, split-join}
use authrim_wordwarden.GoTime.{Time, after}
use authrim_wordwarden.Hmac.Canonical.{Crypto, sign_canonical}
use authrim_wordwarden.Relay.Messages.{
  Envelope, protocol_name, protocol_version_number, min_supported_version_number, envelope_of,
  relay_protocol_compatible,
}
use authrim_wordwarden.Relay.State.{RelayOptions}

-- `time.Parse` and `Format` for RFC 3339, the latter in UTC, and the decimal format of an int.
pub record Formats : Type 0 where
  pub parse_rfc3339 : Text → Option Time
  pub format_rfc3339 : Time → Text
  pub format_int : ℤ → Text

pub record ChallengeMessage : Type 0 where
  pub envelope : Envelope
  pub challenge_id : Text
  pub nonce : Text
  pub issued_at : Text
  pub expires_at : Text

pub record AuthResponseMessage : Type 0 where
  pub envelope : Envelope
  pub tenant_id : Text
  pub connector_id : Text
  pub instance_id : Text
  pub display_name : Text
  pub version : Text
  pub release_channel : Text
  pub started_at : Text
  pub config_fingerprint : Text
  pub config_categories : List Text
  pub key_id : Text
  pub challenge_id : Text
  pub nonce : Text
  pub timestamp : Text
  pub signature : Text

pub record AuthCanonicalInput : Type 0 where
  pub tenant_id : Text
  pub connector_id : Text
  pub key_id : Text
  pub protocol_version : ℤ
  pub min_supported_version : ℤ
  pub challenge_id : Text
  pub nonce : Text
  pub timestamp : Text

abbrev pub relay_algorithm : Text
relay_algorithm = lit "AUTHRIM-WORDWARDEN-RELAY-HMAC-SHA256"

module _ (formats : Formats) where
  unfoldable pub auth_canonical : AuthCanonicalInput → Text
  auth_canonical input =
      relay_algorithm
      ++ (lit "\n"
          ++ (input.tenant_id
              ++ (lit "\n"
                  ++ (input.connector_id
                      ++ (lit "\n"
                          ++ (input.key_id
                              ++ (lit "\n"
                                  ++ (formats.format_int input.protocol_version
                                      ++ (lit "\n"
                                          ++ (formats.format_int input.min_supported_version
                                              ++ (lit "\n"
                                                  ++ (input.challenge_id
                                                      ++ (lit "\n"
                                                          ++ (input.nonce
                                                            ++ (lit "\n"
                                                            ++ input.timestamp)))))))))))))))

  -- The lines of the text that is signed.
  abbrev pub lines_of : AuthCanonicalInput → List Text
  lines_of input =
      relay_algorithm
      ∷ input.tenant_id
      ∷ input.connector_id
      ∷ input.key_id
      ∷ formats.format_int input.protocol_version
      ∷ formats.format_int input.min_supported_version
      ∷ input.challenge_id
      ∷ input.nonce
      ∷ input.timestamp
      ∷ []

  -- Does the challenge let the client go on?
  unfoldable pub challenge_accepted : ChallengeMessage → Time → Bool
  challenge_accepted challenge now =
      challenge.envelope.message_type == lit "auth.challenge"
      && (challenge.envelope.protocol == protocol_name
          && (relay_protocol_compatible challenge.envelope
              && elim (formats.parse_rfc3339 challenge.expires_at) as (λ t. Bool) [
                | none ↦ false
                | some expires_at ↦ not (after now expires_at)
              ]))

  unfoldable pub canonical_input : RelayOptions → ChallengeMessage → Text → AuthCanonicalInput
  canonical_input o challenge timestamp = record {
    tenant_id = o.tenant_id;
    connector_id = o.connector_id;
    key_id = o.key_id;
    protocol_version = protocol_version_number;
    min_supported_version = min_supported_version_number;
    challenge_id = challenge.challenge_id;
    nonce = challenge.nonce;
    timestamp = timestamp;
  }

  abbrev started_text : Option Time → Text
  started_text none = []
  started_text (some t) = formats.format_rfc3339 t

  -- The response to a challenge, or none where the client gives up.
  unfoldable pub authenticate :
      Crypto → RelayOptions → ChallengeMessage → Time → Option AuthResponseMessage
  authenticate crypto o challenge now =
      let timestamp = formats.format_rfc3339 now in
      if not (challenge_accepted challenge now)
      then none
      else some (record {
        envelope = envelope_of (lit "auth.response");
        tenant_id = o.tenant_id;
        connector_id = o.connector_id;
        instance_id = o.instance_id;
        display_name = o.display_name;
        version = o.version;
        release_channel = lit "stable";
        started_at = started_text o.started_at;
        config_fingerprint = o.config_fingerprint;
        config_categories = o.config_categories;
        key_id = o.key_id;
        challenge_id = challenge.challenge_id;
        nonce = challenge.nonce;
        timestamp = timestamp;
        signature =
            sign_canonical crypto (auth_canonical (canonical_input o challenge timestamp)) o.secret;
      })

  unfoldable pub acknowledged : Envelope → Bool
  acknowledged ack =
      ack.protocol == protocol_name
      && (ack.message_type == lit "auth.ok" && relay_protocol_compatible ack)

  -- The text that a response to a relay signs splits at its newlines into the algorithm and the
  -- signed fields, in order, where no field holds a newline.
  pub split-auth_canonical :
      (input : AuthCanonicalInput)
      → All (Lacks b'\n') (lines_of input)
      → split b'\n' (auth_canonical input) ≡ lines_of input
  unfolding auth_canonical lit join
  split-auth_canonical input h = split-join b'\n' relay_algorithm _ h
