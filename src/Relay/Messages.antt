-- ===== src/Relay/Messages.antt =====
-- The messages of internal/adapters/relay/client.go. The field `Type` is `message_type` here.
use authrim_wordwarden.Prelude.{
  ◌&&◌, Bool, List, [], ◌∷◌, Option, Text, lit, text_eq, ◌==◌, ℕ, ℤ, pos, le_int,
}
use authrim_wordwarden.Directory.{GroupFact}

abbrev pub protocol_name : Text
protocol_name = lit "authrim.wordwarden.relay.v1"

-- Both `ProtocolVersion` and `MinSupportedVersion`.
abbrev pub protocol_version_number : ℤ
protocol_version_number = pos 1

abbrev pub min_supported_version_number : ℤ
min_supported_version_number = pos 1

-- What every message begins with.
pub record Envelope : Type 0 where
  pub message_type : Text
  pub protocol : Text
  pub protocol_version : ℤ
  pub min_supported_version : ℤ

pub record VerifyRequestMessage : Type 0 where
  pub envelope : Envelope
  pub id : Text
  pub request_id : Text
  pub tenant_id : Text
  pub connector_id : Text
  pub username : Text
  pub password : Text
  pub attribute_names : List Text

pub record SubjectMessage : Type 0 where
  pub directory_id : Text
  pub username : Text

pub record GroupFactMessage : Type 0 where
  pub id : Text
  pub dn : Text
  pub display : Text
  pub source : Text
  pub depth : ℕ

pub record VerifyResponseMessage : Type 0 where
  pub envelope : Envelope
  pub id : Text
  pub request_id : Text
  pub tenant_id : Text
  pub connector_id : Text
  pub result : Text
  pub reason : Text
  pub subject : Option SubjectMessage
  pub attributes : List (Text × List Text)
  pub group_facts : List GroupFactMessage
  pub directory_status : Text

-- The payload `error` of the source is the pair of `code` and `retryable`.
pub record VerifyErrorMessage : Type 0 where
  pub envelope : Envelope
  pub id : Text
  pub request_id : Text
  pub tenant_id : Text
  pub connector_id : Text
  pub code : Text
  pub retryable : Bool

-- What is written back for a request.
pub data ReplyMessage : Type 0 where
  verify_response : VerifyResponseMessage → ReplyMessage
  verify_error : VerifyErrorMessage → ReplyMessage

abbrev pub envelope_of : Text → Envelope
envelope_of message_type = record {
  message_type = message_type;
  protocol = protocol_name;
  protocol_version = protocol_version_number;
  min_supported_version = min_supported_version_number;
}

unfoldable pub relay_protocol_compatible : Envelope → Bool
relay_protocol_compatible e =
    le_int min_supported_version_number e.protocol_version
    && le_int e.min_supported_version protocol_version_number

-- Is a message that is read a request? Any other is passed over.
unfoldable pub is_verify_request : Envelope → Bool
is_verify_request e =
    e.protocol == protocol_name
    && e.message_type == lit "verify.request"
    && relay_protocol_compatible e

unfoldable pub group_fact_messages : List GroupFact → List GroupFactMessage
group_fact_messages [] = []
group_fact_messages (fact ∷ facts) =
    record {
      id = fact.id;
      dn = fact.dn;
      display = fact.display;
      source = fact.source;
      depth = fact.depth;
    }
    ∷ group_fact_messages facts
