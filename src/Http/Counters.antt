-- ===== src/Http/Counters.antt =====
-- The size of the counters of internal/ports/httpapi/server.go.
use authrim_wordwarden.Prelude.{
  ◌+◌, ◌%◌, ◌≡◌, ◌≤◌, false, List, [], ◌∷◌, arith, length, lookup, lookup-insert, length-insert_le,
  length-insert_of_some, Option-cases, inl, inr, ◌⊎◌,
}
use authrim_wordwarden.Audit.{Event}
use authrim_wordwarden.Http.Metrics.{
  MetricKey, metric_key_eq, Counters, increment, record_metric, metric_key, overflow_key, is_new,
  max_metric_counters,
}

-- The counters of a sequence of events.
unfoldable pub record_metrics : Counters → List Event → Counters
record_metrics counters [] = counters
record_metrics counters (e ∷ es) = record_metrics (record_metric counters e) es

-- At most one more than the maximum, and that one only with the overflow key among them.
abbrev Fits : Counters → Type 0
Fits m =
    (length m ≤ max_metric_counters)
    ⊎ ((length m ≤ max_metric_counters + 1) × (is_new overflow_key m ≡ false))

length-increment_new : (k : MetricKey) (m : Counters) → length (increment k m) ≤ length m + 1
unfolding increment
length-increment_new k m = elim (Option-cases (lookup k m)) [
  | inl e ↦ rw (e, increment) (length-insert_le k 1 m)
  | inr (n, e) ↦ rw (e, increment) (length-insert_le k _ m)
]

length-increment_old :
    (k : MetricKey) (m : Counters) → is_new k m ≡ false → length (increment k m) ≡ length m
unfolding increment
length-increment_old k m h = elim (Option-cases (lookup k m)) [
  | inl e ↦ ground (arith, e)
  | inr (n, e) ↦ rw (e, increment) (length-insert_of_some k _ n m e)
]

is_new-increment_self : (k : MetricKey) (m : Counters) → is_new k (increment k m) ≡ false
unfolding increment
is_new-increment_self k m = elim (Option-cases (lookup k m)) [
  | inl e ↦ ground (arith, e, lookup-insert k k 1 m, metric_key_eq.beq_iff k k)
  | inr (n, e) ↦
      ground
        (arith, e, lookup-insert k k ((n + 1) % 0x10000000000000000) m, metric_key_eq.beq_iff k k)
]

is_new-increment :
    (k j : MetricKey) (m : Counters) → is_new j m ≡ false → is_new j (increment k m) ≡ false
unfolding increment
is_new-increment k j m h = elim (Option-cases (lookup k m)) [
  | inl e ↦ ground (arith, e, lookup-insert k j 1 m)
  | inr (n, e) ↦ ground (arith, e, lookup-insert k j ((n + 1) % 0x10000000000000000) m)
]

record_metric-Fits : (m : Counters) (e : Event) → Fits m → Fits (record_metric m e)
unfolding record_metric
record_metric-Fits m e f = ground (
  arith,
  length-increment_new (metric_key e) m,
  length-increment_old (metric_key e) m,
  length-increment_new overflow_key m,
  length-increment_old overflow_key m,
  is_new-increment_self overflow_key m,
  is_new-increment (metric_key e) overflow_key m,
)

record_metrics-Fits : (m : Counters) (es : List Event) → Fits m → Fits (record_metrics m es)
unfolding record_metrics
record_metrics-Fits m [] f = f
record_metrics-Fits m (e ∷ es) f =
    record_metrics-Fits (record_metric m e) es (record_metric-Fits m e f)

-- However many events are counted, and whatever their labels, there are never more counters than
-- the maximum of 4096 and the one for the overflow.
pub counters_bounded : (es : List Event) → length (record_metrics [] es) ≤ max_metric_counters + 1
counters_bounded es = let f = record_metrics-Fits [] es (inl (omega arith)) in ground (arith, f)
