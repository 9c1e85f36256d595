-- ===== src/Relay/Binding.antt =====
-- Which URLs of a relay are those of a connector, of internal/adapters/relay/client.go.
use authrim_wordwarden.Prelude.{
  ◌≡◌, refl, ap, ◌∙◌, ◌↔◌, inl, inr, true, List, [], ◌∷◌, ◌++◌, Option, none, some, Text, lit,
  text_eq, text_iff, arith, Bool-cases, Option-cases, length, length-append, ◌≤◌,
}
use authrim_wordwarden.GoText.Splitting.{split, join}
use authrim_wordwarden.GoUrl.{Url, UrlParser, drop_slashes, drop_slashes_right}
use authrim_wordwarden.Relay.Address.{
  relay_url_allowed, parse_relay_url, last_six_bind, validate_relay_url_binding, names_id,
}

-- A path whose last six parts are those of the route, and the identifiers, escaped.
pub record IsBound (urls : UrlParser) (tenant_id connector_id : Text) (parts : List Text)
    : Type 0 where
  pub before : List Text
  pub a : Text
  pub b : Text
  pub c : Text
  pub d : Text
  pub tenant : Text
  pub connector : Text
  pub parts_are : parts ≡ before ++ a ∷ b ∷ c ∷ d ∷ tenant ∷ connector ∷ []
  pub route : join (lit "/") (a ∷ b ∷ c ∷ d ∷ []) ≡ lit "api/auth/directory-relay/connect"
  pub tenant_is : urls.path_unescape tenant ≡ some tenant_id
  pub connector_is : urls.path_unescape connector ≡ some connector_id

names_id-some : (o : Option Text) (id : Text) → names_id o id ≡ true → o ≡ some id
names_id-some none id h = absurd (cc h)
names_id-some (some x) id h = ap some ((text_iff x id).0 h)

names_id_refl : (o : Option Text) (id : Text) → o ≡ some id → names_id o id ≡ true
names_id_refl o id e = rw e ((text_iff id id).1 refl)

module _ (urls : UrlParser) (tenant_id connector_id : Text) where
  last_six-IsBound :
      (parts : List Text)
      → last_six_bind urls tenant_id connector_id parts ≡ true
      → IsBound urls tenant_id connector_id parts
  unfolding last_six_bind
  last_six-IsBound [] h = absurd (cc h)
  last_six-IsBound (a ∷ []) h = absurd (cc h)
  last_six-IsBound (a ∷ b ∷ []) h = absurd (cc h)
  last_six-IsBound (a ∷ b ∷ c ∷ []) h = absurd (cc h)
  last_six-IsBound (a ∷ b ∷ c ∷ d ∷ []) h = absurd (cc h)
  last_six-IsBound (a ∷ b ∷ c ∷ d ∷ e ∷ []) h = absurd (cc h)
  last_six-IsBound (a ∷ b ∷ c ∷ d ∷ tenant ∷ connector ∷ []) h = record {
    before = [];
    a = a;
    b = b;
    c = c;
    d = d;
    tenant = tenant;
    connector = connector;
    parts_are = refl;
    route = (text_iff _ _).0 (ground arith);
    tenant_is = names_id-some (urls.path_unescape tenant) tenant_id (ground arith);
    connector_is = names_id-some (urls.path_unescape connector) connector_id (ground arith);
  }
  last_six-IsBound (part ∷ b ∷ c ∷ d ∷ e ∷ f ∷ g ∷ rest) h =
      let k = last_six-IsBound (b ∷ c ∷ d ∷ e ∷ f ∷ g ∷ rest) h in
      record {
        before = part ∷ k.before;
        a = k.a;
        b = k.b;
        c = k.c;
        d = k.d;
        tenant = k.tenant;
        connector = k.connector;
        parts_are = ap (λ l. part ∷ l) k.parts_are;
        route = k.route;
        tenant_is = k.tenant_is;
        connector_is = k.connector_is;
      }

  last_six-skip :
      (part : Text) (parts : List Text)
      → 6 ≤ length parts
      → last_six_bind urls tenant_id connector_id (part ∷ parts)
        ≡ last_six_bind urls tenant_id connector_id parts
  unfolding last_six_bind
  last_six-skip part [] h = absurd (omega arith)
  last_six-skip part (a ∷ []) h = absurd (omega arith)
  last_six-skip part (a ∷ b ∷ []) h = absurd (omega arith)
  last_six-skip part (a ∷ b ∷ c ∷ []) h = absurd (omega arith)
  last_six-skip part (a ∷ b ∷ c ∷ d ∷ []) h = absurd (omega arith)
  last_six-skip part (a ∷ b ∷ c ∷ d ∷ e ∷ []) h = absurd (omega arith)
  last_six-skip part (a ∷ b ∷ c ∷ d ∷ e ∷ f ∷ rest) h = refl

  last_six-append :
      (before six : List Text)
      → length six ≡ 6
      → last_six_bind urls tenant_id connector_id (before ++ six)
        ≡ last_six_bind urls tenant_id connector_id six
  last_six-append [] six h = refl
  last_six-append (part ∷ before) six h =
      last_six-skip part (before ++ six) (ground (arith, length-append before six))
      ∙ last_six-append before six h

  bound-last_six :
      (parts : List Text)
      → IsBound urls tenant_id connector_id parts
      → last_six_bind urls tenant_id connector_id parts ≡ true
  unfolding last_six_bind
  bound-last_six parts k =
      let six = k.a ∷ k.b ∷ k.c ∷ k.d ∷ k.tenant ∷ k.connector ∷ [] in
      ap (last_six_bind urls tenant_id connector_id) k.parts_are
      ∙ (last_six-append k.before six (ground arith)
          ∙ ground (
            arith,
            (text_iff _ _).1 k.route,
            names_id_refl _ tenant_id k.tenant_is,
            names_id_refl _ connector_id k.connector_is,
          ))

  -- A URL is bound to a tenant and a connector exactly when it parses as one that the client may
  -- open, and its path, without slashes at its ends, has as its last six parts those of the route
  -- and then the two identifiers, escaped.
  pub validate_relay_url_binding_iff :
      (raw : Text)
      → (validate_relay_url_binding urls raw tenant_id connector_id ≡ true) ↔ (
          (url : Url) × (urls.parse raw ≡ some url)
          × (relay_url_allowed url ≡ true)
          × IsBound urls tenant_id connector_id
              (split b'/' (drop_slashes_right (drop_slashes url.escaped_path))))
  unfolding validate_relay_url_binding parse_relay_url
  validate_relay_url_binding_iff raw = (there, back)
    where
      there :
          validate_relay_url_binding urls raw tenant_id connector_id ≡ true
          → (url : Url) × (urls.parse raw ≡ some url)
            × (relay_url_allowed url ≡ true)
            × IsBound urls tenant_id connector_id
                (split b'/' (drop_slashes_right (drop_slashes url.escaped_path)))
      there h = elim (Option-cases (urls.parse raw)) [
        | inl bad ↦ absurd (cc (rw (bad, validate_relay_url_binding) at h))
        | inr (url, good) ↦ elim (Bool-cases (relay_url_allowed url)) [
          | inr out ↦ absurd (cc (rw (good, out, validate_relay_url_binding) at h))
          | inl allowed ↦ (
            url,
            good,
            allowed,
            last_six-IsBound _ (rw (good, allowed, validate_relay_url_binding) at h),
          )
        ]
      ]

      back :
          ((url : Url) × (urls.parse raw ≡ some url)
            × (relay_url_allowed url ≡ true)
            × IsBound urls tenant_id connector_id
                (split b'/' (drop_slashes_right (drop_slashes url.escaped_path))))
          → validate_relay_url_binding urls raw tenant_id connector_id ≡ true
      back (url, good, allowed, k) =
          rw (good, allowed, validate_relay_url_binding) (bound-last_six _ k)
