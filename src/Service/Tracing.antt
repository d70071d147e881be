-- ===== src/Service/Tracing.antt =====
-- engine/src/grpc/service.rs: the slices of the session hash in the spans and in the log line.
use vyse.Prelude.{ℕ, zero, suc, ◌-◌, ◌≤◌, ◌≡◌, true, [], ◌∷◌, Text, arith, min}
use vyse.Words.{utf8_width, can_slice, byte_len}
use vyse.Service.{can_trace}

-- A text that can be cut at `n` bytes has as many.
can_slice-byte_len : (n : ℕ) (text : Text) → can_slice n text ≡ true → n ≤ byte_len text
unfolding can_slice byte_len
can_slice-byte_len zero text h = omega arith
can_slice-byte_len (suc n) [] h = absurd (ground arith)
can_slice-byte_len (suc n) (c ∷ text) h =
    let rest = can_slice-byte_len (suc n - utf8_width c) text in ground arith

-- A hash that the log line can cut at eight bytes is one that a span can cut.
pub can_slice-can_trace : (hash : Text) → can_slice 8 hash ≡ true → can_trace hash ≡ true
unfolding can_trace
can_slice-can_trace hash h =
    let enough = can_slice-byte_len 8 hash h in
    let whole : min 8 (byte_len hash) ≡ 8 = omega arith in rw whole h
