-- ===== src/Ldap.antt =====
-- The LDAP client of internal/adapters/ldap/client.go: its configuration, and what it uses of the
-- library github.com/go-ldap/ldap that neither reads nor changes a connection.
pub mod Network
pub mod Errors
pub mod Verdicts
pub mod Attributes
pub mod Selection
pub mod Connections
pub mod Search
pub mod Groups
pub mod Nesting
pub mod Verify
pub mod TestConnection
pub mod Paging
pub mod Frame
pub mod Parts
pub mod Opening
pub mod Searching
pub mod Resolving
pub mod Restoring
pub mod Backing
pub mod Success
pub mod Pooling
pub mod Acquiring
pub mod Sessions
pub mod Timeouts
use authrim_wordwarden.Prelude.{List, Option, Text}
use authrim_wordwarden.GoText.{Unicode}
use authrim_wordwarden.GoUrl.{UrlParser}
use authrim_wordwarden.Config.{LdapConfig, TimeoutConfig}
use authrim_wordwarden.Ldap.Network.{Entry, Control}

-- `attribute_values` is `entry.GetAttributeValues`, and `find_paging` is `ldap.FindControl` for
-- paging: `some none` is a control of that type that is no `*ldap.ControlPaging`, `some (some
-- cookie)` is one with its cookie. `nfkc` is the normalisation of golang.org/x/text.
pub record Library : Type 0 where
  pub unicode : Unicode
  pub nfkc : Text → Text
  pub urls : UrlParser
  pub escape_filter : Text → Text
  pub escape_dn : Text → Text
  pub attribute_values : Entry → Text → List Text
  pub find_paging : List Control → Option (Option Text)

-- The pool is in the session.
pub record Client : Type 0 where
  pub config : LdapConfig
  pub bind_password : Text
  pub timeouts : TimeoutConfig
