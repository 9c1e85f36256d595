-- ===== src/GoTime.antt =====
-- Package time of Go's standard library, as the program uses it. An instant is the number of
-- nanoseconds since an origin before every instant that the program meets; a zero `time.Time`
-- is `none` where the program stores one. A duration is an int64 of nanoseconds.
use authrim_wordwarden.Prelude.{
  ℕ, ◌+◌, ◌-◌, ◌*◌, ◌≤◌, suc, Bool, if◌then◌else◌, ltb, leb, min, ℤ, pos, negsuc, mul_int, ◌≡◌,
  arith,
}

abbrev pub Time : Type 0
Time = ℕ

abbrev pub Duration : Type 0
Duration = ℤ

-- `t.Before(u)`
abbrev pub before : Time → Time → Bool
before t u = ltb t u

-- `t.After(u)`
abbrev pub after : Time → Time → Bool
after t u = ltb u t

-- `t.Add(d)`
unfoldable pub add : Time → Duration → Time
add t (pos d) = t + d
add t (negsuc d) = t - suc d

-- `t.Sub(u)`, which saturates at the bounds of int64.
unfoldable pub sub : Time → Time → Duration
sub t u =
    if leb u t
    then pos (min (t - u) 0x7fffffffffffffff)
    else negsuc (min (u - t - 1) 0x7fffffffffffffff)

-- `d.Abs()`: the least int64 has no opposite and gives the greatest.
unfoldable pub abs : Duration → Duration
abs (pos d) = pos d
abs (negsuc d) = pos (min (suc d) 0x7fffffffffffffff)

-- `time.Duration(ms) * time.Millisecond`
unfoldable pub millis : ℤ → Duration
unfolding mul_int
millis ms = mul_int ms 1000000

-- The longest number of milliseconds that an int64 of nanoseconds holds.
abbrev pub max_millis : ℕ
max_millis = 9223372036854

pub millis-pos : (n : ℕ) → n ≤ max_millis → millis (pos n) ≡ pos (n * 1000000)
unfolding millis
millis-pos n h = ground arith
