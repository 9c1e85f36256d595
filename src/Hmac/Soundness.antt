-- ===== src/Hmac/Soundness.antt =====
-- What the verifier of internal/adapters/hmac/verifier.go accepts.
use authrim_wordwarden.Prelude.{
  ◌+◌, ◌≤◌, ◌≡◌, ◌≢◌, ◌↔◌, ◌⊎◌, refl, inl, inr, Bool, true, false, not, Option, none, some, Text,
  text_eq, text_iff, ◌==◌, lt_int, arith, Option-cases,
}
use authrim_wordwarden.GoTime.{Time, sub, abs}
use authrim_wordwarden.GoText.{Unicode}
use authrim_wordwarden.Hmac.Request.{Request, Result, ok, err, HmacError, ◌>>=◌, ◌>>◌, require}
use authrim_wordwarden.Hmac.Headers.{HmacHeaders, required_headers}
use authrim_wordwarden.Hmac.Canonical.{Crypto, canonical_request, sign_canonical}
use authrim_wordwarden.Hmac.Verifier.{
  Key, KeySet, VerificationResult, or_fail, two_minutes, new_verifier, lookup_key, verify_body,
}

-- Inversions of a successful bind, for a proof that goes on with the parts.
pub bind_cases {ℓ κ μ} :
    {A : Type ℓ} {B : Type κ} {P : Type μ} (m : Result A) {f : A → Result B} {b : B}
    → (m >>= f) ≡ ok b
    → ((a : A) → m ≡ ok a → f a ≡ ok b → P)
    → P
bind_cases (ok a) h k = k a refl h
bind_cases (err e) h k = cc

pub require_cases {ℓ μ} :
    {B : Type ℓ} {P : Type μ} (test : Bool) (e : HmacError) {m : Result B} {b : B}
    → (require test e >> m) ≡ ok b
    → (test ≡ true → m ≡ ok b → P)
    → P
require_cases true e h k = k refl h
require_cases false e h k = cc

option_cases {ℓ κ μ} :
    {A : Type ℓ} {B : Type κ} {P : Type μ} (o : Option A) (e : HmacError) {f : A → Result B} {b : B}
    → (or_fail o e >>= f) ≡ ok b
    → ((a : A) → o ≡ some a → f a ≡ ok b → P)
    → P
option_cases none e h k = cc
option_cases (some a) e h k = k a refl h

-- The key of an identifier: the active one, or the previous one where the active one has another
-- identifier.
abbrev pub IsKeyOf : KeySet → Text → Key → Type 0
IsKeyOf keys kid key =
    (key.kid ≡ kid) × ((key ≡ keys.active) ⊎ ((keys.active.kid ≢ kid) × (keys.previous ≡ some key)))

pub lookup_key_iff :
    (keys : KeySet) (kid : Text) (key : Key)
    → (lookup_key keys kid ≡ some key) ↔ IsKeyOf keys kid key
unfolding lookup_key
lookup_key_iff keys kid key = elim (Option-cases keys.previous) [
  | inl e ↦ ground (arith, e, text_iff keys.active.kid kid)
  | inr (old, e) ↦ ground (arith, e, text_iff keys.active.kid kid, text_iff old.kid kid)
]

pub skew_iff :
    (now t : Time)
    → (lt_int two_minutes (abs (sub now t)) ≡ false)
      ↔ ((now ≤ t + 120000000000) × (t ≤ now + 120000000000))
unfolding abs sub
skew_iff now t = ground arith

module _ (u : Unicode) (c : Crypto) (parse : Text → Option Time) where
  pub record Authentic (keys : KeySet) (now : Time) (req : Request) (body : Text)
      (r : VerificationResult) : Type 0 where
    pub headers : HmacHeaders
    pub key : Key
    pub canonical : Text
    pub read : required_headers u req ≡ ok headers
    pub parsed : parse headers.timestamp ≡ some r.timestamp
    pub not_old : now ≤ r.timestamp + 120000000000
    pub not_early : r.timestamp ≤ now + 120000000000
    pub keyed : IsKeyOf keys headers.key_id key
    pub canonical_is :
        canonical_request u c req body headers.signed_headers headers.timestamp headers.nonce
        ≡ ok canonical
    pub signed : sign_canonical c canonical key.secret ≡ headers.signature
    pub connector_id : r.connector_id ≡ headers.connector_id
    pub key_id : r.key_id ≡ headers.key_id
    pub request_id : r.request_id ≡ headers.request_id
    pub nonce : r.nonce ≡ headers.nonce

  verify_body_sound :
      (keys : KeySet) (now : Time) (req : Request) (body : Text) (r : VerificationResult)
      → verify_body u c parse (new_verifier keys) now req body ≡ ok r
      → Authentic keys now req body r
  unfolding verify_body new_verifier
  verify_body_sound keys now req body r e = bind_cases (required_headers u req) e λ headers read e1.
      option_cases (parse headers.timestamp) _ e1 λ timestamp parsed e2.
        require_cases (not (lt_int two_minutes (abs (sub now timestamp)))) _ e2 λ fresh e3.
          option_cases (lookup_key keys headers.key_id) _ e3 λ key keyed e4.
            bind_cases _ e4 λ canonical canonical_is e5.
              require_cases (sign_canonical c canonical key.secret == headers.signature) _ e5
                λ signed e6.
                  let recent = (skew_iff now timestamp).0 (ground arith) in
                  record {
                    headers = headers;
                    key = key;
                    canonical = canonical;
                    read = read;
                    parsed = ground (arith, parsed);
                    not_old = ground (arith, recent);
                    not_early = ground (arith, recent);
                    keyed = (lookup_key_iff keys headers.key_id key).0 keyed;
                    canonical_is = canonical_is;
                    signed = (text_iff _ _).0 signed;
                    connector_id = cc;
                    key_id = cc;
                    request_id = cc;
                    nonce = cc;
                  }

  verify_body_complete :
      (keys : KeySet) (now : Time) (req : Request) (body : Text) (r : VerificationResult)
      → Authentic keys now req body r
      → verify_body u c parse (new_verifier keys) now req body ≡ ok r
  unfolding verify_body new_verifier
  verify_body_complete keys now req body r a =
      rw
        (
          a.read,
          a.parsed,
          (skew_iff now r.timestamp).1 (a.not_old, a.not_early),
          (lookup_key_iff keys a.headers.key_id a.key).1 a.keyed,
          a.canonical_is,
          (text_iff _ _).1 a.signed,
        )
        (cc (a.connector_id, a.key_id, a.request_id, a.nonce))

-- A verifier with the two minutes of clock skew accepts a request exactly when its required headers
-- are there, its timestamp is an instant at most two minutes from the clock on either side, its key
-- identifier names the active key, or the previous one where the active one is another, and its
-- signature is that of its canonical text under that key; the result then repeats the headers.
pub verify_iff :
    (u : Unicode) (c : Crypto) (parse : Text → Option Time) (keys : KeySet) (now : Time)
    (req : Request) (body : Text) (r : VerificationResult)
    → (verify_body u c parse (new_verifier keys) now req body ≡ ok r)
      ↔ Authentic u c parse keys now req body r
verify_iff u c parse keys now req body r = (
  verify_body_sound u c parse keys now req body r,
  verify_body_complete u c parse keys now req body r,
)
