-- ===== src/Ldap/Timeouts.antt =====
-- The time limits of the LDAP client, of internal/adapters/ldap/client.go.
use authrim_wordwarden.Prelude.{
  ℕ, ◌+◌, ◌*◌, ◌/◌, ◌%◌, ◌≡◌, ◌≤◌, ◌<◌, none, some, if◌then◌else◌, eqb, ltb, ℤ, pos, negsuc, le_int,
  lt_int, arith, ◌⊎◌,
}
use authrim_wordwarden.GoTime.{Duration, millis}
use authrim_wordwarden.Directory.{directory_unavailable}
use authrim_wordwarden.Ldap.Network.{Context, ended, running, Outcome, done, failed, known}

-- Also of internal/ports/httpapi/server.go.
unfoldable pub duration_from_ms : ℤ → Duration → Duration
duration_from_ms value fallback = if le_int value (pos 0) then fallback else millis value

abbrev millisecond : Duration
millisecond = pos 1000000

abbrev at_least_millisecond : Duration → Duration
at_least_millisecond timeout = if lt_int timeout millisecond then millisecond else timeout

unfoldable pub timeout_within_context : Context → ℤ → Duration → Outcome Duration
timeout_within_context ended value fallback = failed (known directory_unavailable)
timeout_within_context (running none) value fallback =
    done (at_least_millisecond (duration_from_ms value fallback))
timeout_within_context (running (some remaining)) value fallback =
    let timeout = duration_from_ms value fallback in
    if le_int remaining (pos 0)
    then failed (known directory_unavailable)
    else done (at_least_millisecond (if lt_int remaining timeout then remaining else timeout))

unfoldable pub ldap_time_limit_seconds : Duration → ℕ
ldap_time_limit_seconds (negsuc n) = 1
ldap_time_limit_seconds (pos n) =
    let seconds = n / 1000000000 + (if eqb (n % 1000000000) 0 then 0 else 1) in
    if ltb seconds 1 then 1 else seconds

-- An operation's timeout is a millisecond at least; it is no longer than what is left until the
-- deadline of the request, or than that millisecond; and the limit in seconds that is sent with a
-- search is the timeout rounded up, so that the directory does not stop before the client.
pub timeout_bounds :
    (remaining : ℕ) (value : ℤ) (fallback t : Duration)
    → timeout_within_context (running (some (pos remaining))) value fallback ≡ done t
    → (n : ℕ) × (t ≡ pos n)
      × (1000000 ≤ n)
      × ((n ≤ remaining) ⊎ (n ≡ 1000000))
      × (n ≤ ldap_time_limit_seconds t * 1000000000)
      × (ldap_time_limit_seconds t * 1000000000 < n + 1000000000)
unfolding timeout_within_context ldap_time_limit_seconds
timeout_bounds remaining value fallback (pos n) h =
    (n, ground arith, ground arith, ground arith, ground arith, ground arith)
timeout_bounds remaining value fallback (negsuc n) h = absurd (ground arith)
