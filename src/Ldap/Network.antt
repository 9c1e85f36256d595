-- ===== src/Ldap/Network.antt =====
-- What internal/adapters/ldap/client.go asks of the library github.com/go-ldap/ldap and of the
-- request's context, as a parameter, and the state of the client: the calls made so far with their
-- outcomes, the newest first, and the pool's idle connections. The outcome of a call may depend on
-- all the calls before it.
use authrim_wordwarden.Prelude.{ℕ, Bool, List, ◌∷◌, Option, Text, ℤ}
use authrim_wordwarden.GoTime.{Duration}
use authrim_wordwarden.Directory

-- A connection is known by its number, in the order of opening.
abbrev pub Conn : Type 0
Conn = ℕ

-- An error of the library with its result code and its text, or one of internal/core/directory,
-- wrapped or not. `out_of_rounds` is none of the source's: the paging loop has not ended within the
-- rounds of the model.
pub data Failure : Type 0 where
  ldap_error : (code : ℕ) (text : Text) → Failure
  known : Directory.Error → Failure
  out_of_rounds : Failure

-- `values` are the values as texts, `byte_values` as bytes.
pub record Attribute : Type 0 where
  pub name : Text
  pub values : List Text
  pub byte_values : List Text

pub record Entry : Type 0 where
  pub dn : Text
  pub attributes : List Attribute

-- A control: paging, with its page size and its cookie, or another one.
pub data Control : Type 0 where
  paging : (size : ℕ) (cookie : Text) → Control
  other_control : Text → Control

pub data Scope : Type 0 where
  base_object whole_subtree : Scope

-- No request dereferences aliases or asks for types alone.
pub record SearchRequest : Type 0 where
  pub base_dn : Text
  pub scope : Scope
  pub size_limit : ℤ
  pub time_limit : ℕ
  pub filter : Text
  pub attributes : List Text
  pub controls : List Control

pub record SearchResult : Type 0 where
  pub entries : List Entry
  pub referrals : List Text
  pub controls : List Control

-- What `conn.Search` returns: a result, or an error with perhaps a result.
pub data SearchReply : Type 0 where
  found : SearchResult → SearchReply
  broken : Option SearchResult → Failure → SearchReply

-- `root_cas` is the text of the CA file, where one is configured. The least version is TLS 1.2.
pub record TlsConfig : Type 0 where
  pub server_name : Text
  pub insecure_skip_verify : Bool
  pub root_cas : Option Text

pub data Event : Type 0 where
  opened : Conn → (endpoint : Text) → Option TlsConfig → Event
  unreachable : (endpoint : Text) → Event
  secured : Conn → TlsConfig → Event
  timeout_set : Conn → Duration → Event
  bound refused : Conn → (name password : Text) → Event
  searched : Conn → SearchRequest → Event
  closed : Conn → Event

-- The context of the request: ended, or running with the time that is left until its deadline.
pub data Context : Type 0 where
  ended : Context
  running : Option Duration → Context

-- `dial` is given the timeout and, but for StartTLS, the TLS settings. `read_file` and
-- `has_certificates` read a CA file. `rounds` is the fuel of the paging loop.
pub record Network : Type 0 where
  pub context : List Event → Context
  pub dial : List Event → Text → Duration → Option TlsConfig → Option Failure
  pub start_tls : List Event → Conn → TlsConfig → Option Failure
  pub bind : List Event → Conn → Text → Text → Option Failure
  pub search : List Event → Conn → SearchRequest → SearchReply
  pub read_file : List Event → Text → Option Text
  pub has_certificates : Text → Bool
  pub rounds : ℕ

pub record Session : Type 0 where
  pub log : List Event
  pub next : Conn
  pub idle : List Conn

pub data Outcome {ℓ} (A : Type ℓ) : Type ℓ where
  done : A → Outcome A
  failed : Failure → Outcome A

-- A part of the client's code: it goes on from a session, and gives a value or an error.
abbrev pub Action {ℓ} : Type ℓ → Type ℓ
Action A = Session → Outcome A × Session

module _ {ℓ} {A : Type ℓ} where
  abbrev pub give : A → Action A
  give a s = (done a, s)

  abbrev pub fail : Failure → Action A
  fail e s = (failed e, s)

infixl 5 ◌>>=◌ ◌>>◌
unfoldable pub ◌>>=◌ {κ μ} : {S : Type κ} {T : Type μ} → Action S → (S → Action T) → Action T
◌>>=◌ first next s =
    let r = first s in elim r.0 [ done a ↦ next a r.1 | failed e ↦ (failed e, r.1) ]

abbrev pub ◌>>◌ {κ μ} : {S : Type κ} {T : Type μ} → Action S → Action T → Action T
first >> next = first >>= λ ignored. next

-- Both outcomes of a part, for code that looks at the error.
unfoldable pub attempt {ℓ} : {A : Type ℓ} → Action A → Action (Outcome A)
attempt part s = let r = part s in (done r.0, r.1)

abbrev pub note : Event → Session → Session
note e s = record s { log = e ∷ s.log }
