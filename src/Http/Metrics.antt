-- ===== src/Http/Metrics.antt =====
-- The counters of internal/ports/httpapi/server.go.
use authrim_wordwarden.Prelude.{
  ℕ, ◌+◌, ◌%◌, ◌≡◌, ◌↔◌, Bool, true, false, ◌&&◌, ◌||◌, List, [], none, some, Text, lit, Eq,
  text_eq, ◌==◌, text_iff, if◌then◌else◌, is_nil, all, leb, ltb, eqb, length, lookup, insert, arith,
}
use authrim_wordwarden.GoText.Escaping.{is_alnum}
use authrim_wordwarden.Audit.{Event}

pub record MetricKey : Type 0 where
  pub event_type : Text
  pub tenant_id : Text
  pub connector_id : Text
  pub result : Text
  pub error_code : Text

unfoldable pub metric_key_beq : MetricKey → MetricKey → Bool
metric_key_beq a b =
    a.event_type == b.event_type
    && a.tenant_id == b.tenant_id
    && a.connector_id == b.connector_id
    && a.result == b.result
    && a.error_code == b.error_code

pub metric_key_iff : (a b : MetricKey) → (metric_key_beq a b ≡ true) ↔ (a ≡ b)
unfolding metric_key_beq
metric_key_iff a b = ground (
  arith,
  text_iff a.event_type b.event_type,
  text_iff a.tenant_id b.tenant_id,
  text_iff a.connector_id b.connector_id,
  text_iff a.result b.result,
  text_iff a.error_code b.error_code,
)

instance abbrev pub metric_key_eq : Eq MetricKey
metric_key_eq = record { beq = metric_key_beq; beq_iff = metric_key_iff }

abbrev pub unknown_metric_label : Text
unknown_metric_label = lit "unknown"

abbrev pub invalid_metric_label : Text
invalid_metric_label = lit "invalid"

abbrev pub metric_overflow_label : Text
metric_overflow_label = lit "overflow"

abbrev pub max_metric_counters : ℕ
max_metric_counters = 4096

-- Counters are uint64 and wrap.
abbrev pub Counters : Type 0
Counters = List (MetricKey × ℕ)

abbrev pub is_label_byte : ℕ → Bool
is_label_byte c = is_alnum c || eqb c b'_' || eqb c b'-' || eqb c b'.'

-- The loop over the runes of the value returns `invalid` at the first that is no ASCII letter,
-- digit or one of `_-.`; a byte that is not ASCII gives such a rune.
unfoldable pub metric_label : Text → Text → Text
unfolding is_alnum
metric_label value empty_label =
    if is_nil value
    then empty_label
    else if ltb 128 (length value)
    then invalid_metric_label
    else if all is_label_byte value
    then value
    else invalid_metric_label

unfoldable pub metric_key : Event → MetricKey
unfolding metric_label
metric_key event = record {
  event_type = metric_label event.event_type unknown_metric_label;
  tenant_id = metric_label event.tenant_id unknown_metric_label;
  connector_id = metric_label event.connector_id unknown_metric_label;
  result = metric_label event.result unknown_metric_label;
  error_code = metric_label event.error_code [];
}

abbrev pub overflow_key : MetricKey
overflow_key = record {
  event_type = metric_overflow_label;
  tenant_id = metric_overflow_label;
  connector_id = metric_overflow_label;
  result = metric_overflow_label;
  error_code = metric_overflow_label;
}

-- `m.counters[key]++`
unfoldable pub increment : MetricKey → Counters → Counters
increment key counters = elim (lookup key counters) [
  | none ↦ insert key 1 counters
  | some n ↦ insert key ((n + 1) % 0x10000000000000000) counters
]

abbrev pub is_new : MetricKey → Counters → Bool
is_new key counters = elim (lookup key counters) [ none ↦ true | some _ ↦ false ]

-- The method `record`, whose name is a keyword here.
unfoldable pub record_metric : Counters → Event → Counters
unfolding increment
record_metric counters event =
    let key = metric_key event in
    increment
      (if is_new key counters && leb max_metric_counters (length counters)
        then overflow_key
        else key)
      counters
