-- ===== src/Relay/Waiting.antt =====
-- The waits between the attempts of `Run`, of internal/adapters/relay/client.go.
use authrim_wordwarden.Prelude.{
  ℕ, zero, suc, ◌*◌, ◌^◌, ap, sym, ◌∙◌, ◌≡◌, ◌≤◌, arith, pos, mul_int, min,
}
use native.Mathlib.Nat.{pow-suc, mul_assoc}
use authrim_wordwarden.Relay.State.{RelayOptions, next_backoff, backoff_at}

-- The next wait doubles the last up to the longest, without wrapping.
next_backoff_lem :
    (o : RelayOptions) (longest wait : ℕ)
    → o.reconnect_max ≡ pos longest
    → longest ≤ 4611686018427387903
    → wait ≤ longest
    → next_backoff o (pos wait) ≡ pos (min (wait * 2) longest)
unfolding next_backoff mul_int
next_backoff_lem o longest wait e fits le = rw (e, next_backoff) (ground arith)

-- The wait before the repetition with the number `n` is the shortest wait doubled `n` times, and no
-- longer than the longest: for limits that are in order, and a longest wait whose double is an
-- int64, it does not wrap.
pub backoff_at_lem :
    (o : RelayOptions) (shortest longest n : ℕ)
    → o.reconnect_min ≡ pos shortest
    → o.reconnect_max ≡ pos longest
    → shortest ≤ longest
    → longest ≤ 4611686018427387903
    → backoff_at o n ≡ pos (min (shortest * 2 ^ n) longest)
unfolding backoff_at
backoff_at_lem o shortest longest zero e f le fits = ground (arith, e)
backoff_at_lem o shortest longest (suc n) e f le fits =
    ap (next_backoff o) (backoff_at_lem o shortest longest n e f le fits)
    ∙ (next_backoff_lem o longest (min (shortest * 2 ^ n) longest) f fits (omega arith)
        ∙ ap pos (
            ground
              (arith, ap (λ p. shortest * p) (pow-suc 2 n) ∙ sym (mul_assoc shortest (2 ^ n) 2))))
