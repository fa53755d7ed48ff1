-- ===== src/Http/Codec/Hex.antt =====
-- hexit inverts the digits that `%02x` prints.
use linux_c_study.Prelude.{ℕ, ◌<◌, ◌≡◌, true, false, ◌||◌, arith, ◌==◌}
use linux_c_study.Http.Codec.{isxdigit, isalnum, is_mark, hexit, hex_digit}

pub isxdigit-hex_digit : (n : ℕ) → n < 16 → isxdigit (hex_digit n) ≡ true
unfolding isxdigit hex_digit
isxdigit-hex_digit n h = ground arith

pub hexit-hex_digit : (n : ℕ) → n < 16 → hexit (hex_digit n) ≡ n
unfolding hexit hex_digit
hexit-hex_digit n h = ground arith

hexit-lt : (c : ℕ) → hexit c < 16
unfolding hexit
hexit-lt c = ground arith

-- An unreserved byte is no `%`, so the decoder copies it.
pub ne_percent : (c : ℕ) → (isalnum c || is_mark c) ≡ true → (c == b'%') ≡ false
unfolding isalnum is_mark
ne_percent c h = ground arith
