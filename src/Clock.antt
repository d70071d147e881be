-- ===== src/Clock.antt =====
-- `chrono` as the engine uses it: a `DateTime<Utc>` is the number of nanoseconds since 1970, and a
-- difference of two is signed. The readings of `Utc::now()` are arguments of the functions.
use vyse.Prelude.{ℕ, suc, ◌*◌, ◌^◌, ◌/◌}
use vyse.Prelude.Int.{ℤ, pos, negsuc, sub_ℕ, ◌-ℤ◌, div_ℤ}
use vyse.Float.{Float}

abbrev pub DateTime : Type 0
DateTime = ℕ

abbrev pub nanos_per_sec : ℕ
nanos_per_sec = 10 ^ 9

-- `(later - earlier).num_seconds()`, whole seconds towards zero
abbrev pub num_seconds : DateTime → DateTime → ℤ
num_seconds later earlier = div_ℤ (sub_ℕ later earlier) nanos_per_sec

-- `t.timestamp()`
abbrev pub timestamp : DateTime → ℕ
timestamp t = t / nanos_per_sec

-- `Duration::seconds(n)`, in nanoseconds
abbrev pub seconds : ℤ → ℤ
seconds (pos n) = pos (n * nanos_per_sec)
seconds (negsuc n) = sub_ℕ 0 (suc n * nanos_per_sec)

-- `now - duration`
abbrev pub before : DateTime → ℤ → ℤ
before now duration = pos now -ℤ duration

module _ {F : Type 0} ⦃f : Float F⦄ where
  -- `(now - t).num_seconds() as f32 / 60.0`
  abbrev pub mins_since : DateTime → DateTime → F
  mins_since now t = f.div (f.of_int (num_seconds now t)) (f.lit 60 0)
