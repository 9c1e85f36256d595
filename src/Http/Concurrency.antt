-- ===== src/Http/Concurrency.antt =====
-- Requests in flight, of internal/ports/httpapi/server.go: the slots of a connector.
use authrim_wordwarden.Prelude.{
  ℕ, suc, ◌+◌, ◌-◌, ◌≡◌, ◌≤◌, List, [], ◌∷◌, ◌++◌, some, Text, text_eq, text_iff, ◌==◌,
  if◌then◌else◌, arith, inl, inr, lookup, lookup-insert, Option-cases,
}
use authrim_wordwarden.GoTime.{Time}
use authrim_wordwarden.Directory.{Answer}
use authrim_wordwarden.Hmac.Request.{Request}
use authrim_wordwarden.Http.Messages.{Reply}
use authrim_wordwarden.Http.State.{Env, Handler, Slots, acquire, release}
use authrim_wordwarden.Http.Handler.{Pending, replied, calling, admit}
use authrim_wordwarden.Http.Completion.{complete}

-- The requests that wait for the directory, beside the handler.
pub record System : Type 0 where
  pub handler : Handler
  pub in_flight : List Pending

-- One step of some request, at an instant: it arrives, and is answered at once or waits, or the
-- directory's answer to one that waits is dealt with. Requests interleave in every order.
pub data Step (env : Env) (now : Time) (s : System) : System → Type 0 where
  turned_away :
      (req : Request) (h : Handler) (reply : Reply)
      → admit env s.handler now req ≡ replied h reply
      → Step env now s (record { handler = h; in_flight = s.in_flight })
  let_in :
      (req : Request) (h : Handler) (p : Pending)
      → admit env s.handler now req ≡ calling h p
      → Step env now s (record { handler = h; in_flight = p ∷ s.in_flight })
  finished :
      (before : List Pending) (p : Pending) (behind : List Pending) (answer : Answer)
      → s.in_flight ≡ before ++ p ∷ behind
      → Step env now s (record {
        handler = (complete env s.handler now p answer).0;
        in_flight = before ++ behind;
      })

-- How many requests of a connector are in flight.
unfoldable pub in_flight_of : Text → List Pending → ℕ
in_flight_of cid [] = 0
in_flight_of cid (p ∷ ps) =
    if p.connector_id == cid then suc (in_flight_of cid ps) else in_flight_of cid ps

pub in_flight_of-append :
    (cid : Text) (ps qs : List Pending)
    → in_flight_of cid (ps ++ qs) ≡ in_flight_of cid ps + in_flight_of cid qs
unfolding in_flight_of
in_flight_of-append cid [] qs = omega arith
in_flight_of-append cid (p ∷ ps) qs = ground (arith, in_flight_of-append cid ps qs)

-- The slots of a connector, if it has any, are held by `n` requests, no more than there are.
abbrev pub Holds : Text → ℕ → Handler → Type 0
Holds c n h = (s : Slots) → lookup c h.limits ≡ some s → (s.used ≡ n) × (n ≤ s.capacity)

-- The number of a connector's requests when one of `cid` is added, or taken away.
abbrev pub one_more : Text → Text → ℕ → ℕ
one_more cid c n = if cid == c then suc n else n

abbrev pub one_less : Text → Text → ℕ → ℕ
one_less cid c n = if cid == c then n - 1 else n

pub acquire-Holds :
    (c cid : Text) (n : ℕ) (h g : Handler)
    → acquire h cid ≡ some g
    → Holds c n h
    → Holds c (one_more cid c n) g
unfolding acquire
acquire-Holds c cid n h g e f s q = elim (Option-cases (lookup cid h.limits)) [
  | inl free ↦ ground (arith, free, f s, text_iff cid c)
  | inr (t, found) ↦ ground (
    arith,
    found,
    f s,
    f t,
    text_iff cid c,
    lookup-insert cid c (record t { used = suc t.used }) h.limits,
  )
]

pub release-Holds :
    (c cid : Text) (n : ℕ) (h : Handler) → Holds c n h → Holds c (one_less cid c n) (release h cid)
unfolding release
release-Holds c cid n h f s q = elim (Option-cases (lookup cid h.limits)) [
  | inl free ↦ ground (arith, free, f s, text_iff cid c)
  | inr (t, found) ↦ ground (
    arith,
    found,
    f s,
    f t,
    text_iff cid c,
    lookup-insert cid c (record t { used = t.used - 1 }) h.limits,
  )
]
