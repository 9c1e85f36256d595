-- ===== src/Http/Operations.antt =====
-- The endpoints for operations of internal/ports/httpapi/server.go: health, version and metrics.
use authrim_wordwarden.Prelude.{
  ℕ, Bool, true, false, not, ◌||◌, List, [], ◌∷◌, ◌++◌, map, Option, none, some, Text, lit, text_eq,
  if◌then◌else◌, lookup, ℤ, pos, le_int,
}
use authrim_wordwarden.GoText.Sorting.{text_le, sort_texts}
use authrim_wordwarden.Config.Problems.{decimal}
use authrim_wordwarden.Http.Metrics.{MetricKey, Counters}
use authrim_wordwarden.Http.State.{TenantRuntime, Handler}

-- `net.SplitHostPort`, whose error is `none`; whether a host is an IP address for loopback, by
-- `net.ParseIP`; and `%q`.
pub record Addresses : Type 0 where
  pub split_host_port : Text → Option Text
  pub is_loopback_ip : Text → Bool
  pub quote : Text → Text

pub record HealthDetailTenant : Type 0 where
  pub tenant_id : Text
  pub connector_id : Text
  pub concurrency_limit : ℤ
  pub request_timeout_ms : ℤ

pub record HealthDetailResponse : Type 0 where
  pub ok : Bool
  pub connector : Text
  pub version : Text
  pub tenants : List HealthDetailTenant

pub record HealthResponse : Type 0 where
  pub ok : Bool
  pub connector : Text
  pub version : Text

pub record VersionResponse : Type 0 where
  pub connector : Text
  pub version : Text

unfoldable pub health : Handler → HealthResponse
health h = record { ok = true; connector = lit "authrim-wordwarden"; version = h.version }

unfoldable pub version_of : Handler → VersionResponse
version_of h = record { connector = lit "authrim-wordwarden"; version = h.version }

abbrev or_limit : ℤ → ℤ → ℤ
or_limit n fallback = if le_int n (pos 0) then fallback else n

unfoldable pub detail_of : TenantRuntime → HealthDetailTenant
detail_of r = record {
  tenant_id = r.tenant_id;
  connector_id = r.connector_id;
  concurrency_limit = or_limit r.concurrency_limit (pos 8);
  request_timeout_ms = or_limit r.request_timeout_ms (pos 2500);
}

-- A key that the map lacks would give the zero value.
unfoldable pub detail_at : List (Text × TenantRuntime) → Text → HealthDetailTenant
detail_at tenants connector_id = elim (lookup connector_id tenants) [
  | none ↦ record {
    tenant_id = [];
    connector_id = [];
    concurrency_limit = pos 8;
    request_timeout_ms = pos 2500;
  }
  | some runtime ↦ detail_of runtime
]

-- What the remote address without its port is.
abbrev host_of : Option Text → Text → Text
host_of none remote = remote
host_of (some host) remote = host

-- `sort.Slice` by the key's text.
unfoldable pub metric_sort_key : MetricKey → Text
metric_sort_key k =
    k.event_type
    ++ (0 ∷ [])
    ++ (k.tenant_id
        ++ (0 ∷ [])
        ++ (k.connector_id ++ (0 ∷ []) ++ (k.result ++ (0 ∷ []) ++ k.error_code)))

unfoldable pub insert_counter : MetricKey × ℕ → Counters → Counters
insert_counter (k, n) [] = (k, n) ∷ []
insert_counter (k, n) ((j, m) ∷ rest) = elim (text_le (metric_sort_key k) (metric_sort_key j)) [
  | true ↦ (k, n) ∷ (j, m) ∷ rest
  | false ↦ (j, m) ∷ insert_counter (k, n) rest
]

unfoldable pub sort_counters : Counters → Counters
sort_counters [] = []
sort_counters (c ∷ counters) = insert_counter c (sort_counters counters)

module _ (addresses : Addresses) where
  unfoldable pub counter_line : MetricKey × ℕ → Text
  counter_line (k, n) =
      lit "wordwarden_events_total{event_type="
      ++ (addresses.quote k.event_type
          ++ (lit ",tenant_id="
              ++ (addresses.quote k.tenant_id
                  ++ (lit ",connector_id="
                      ++ (addresses.quote k.connector_id
                          ++ (lit ",result="
                              ++ (addresses.quote k.result
                                  ++ (lit ",error_code="
                                      ++ (addresses.quote k.error_code
                                          ++ (lit "} " ++ (decimal n ++ lit "\n")))))))))))

  unfoldable pub counter_lines : Counters → Text
  counter_lines [] = []
  counter_lines (c ∷ counters) = counter_line c ++ counter_lines counters

  unfoldable pub prometheus : Counters → Text
  prometheus counters =
      lit "# HELP wordwarden_events_total Wordwarden audit-classified events.\n"
      ++ (lit "# TYPE wordwarden_events_total counter\n" ++ counter_lines (sort_counters counters))

  unfoldable pub operations_allowed : Handler → Text → Bool
  operations_allowed h remote =
      h.expose_operations
      || addresses.is_loopback_ip (host_of (addresses.split_host_port remote) remote)

  -- `none` is 404.
  unfoldable pub health_details : Handler → Text → Option HealthDetailResponse
  health_details h remote =
      if not (operations_allowed h remote)
      then none
      else some (record {
        ok = true;
        connector = lit "authrim-wordwarden";
        version = h.version;
        tenants = map (detail_at h.tenants) (sort_texts (map (λ t. t.0) h.tenants));
      })

  unfoldable pub metrics_endpoint : Handler → Text → Option Text
  metrics_endpoint h remote =
      if not (operations_allowed h remote) then none else some (prometheus h.metrics)
