-- ===== src/Http/Codec.antt =====
-- httpService/http_service.c: hexit, strencode and strdecode, the percent coding of names.
-- A `char` is its byte, 0 to 255. The character classes are those of the C locale.
pub mod Hex
pub mod Decode
pub mod RoundTrip
mod Tests
use linux_c_study.Prelude.{
  ℕ, zero, suc, ◌+◌, ◌-◌, ◌*◌, ◌/◌, ◌%◌, Bool, ◌&&◌, ◌||◌, List, [], ◌∷◌, ◌++◌, ℕ_discrete, ltb,
  leb, ◌==◌, if◌then◌else◌, length,
}
use mathlib.Core.Logic.{ite}

abbrev is_digit : ℕ → Bool
is_digit c = leb b'0' c && leb c b'9'

-- isxdigit
unfoldable pub isxdigit : ℕ → Bool
isxdigit c = is_digit c || ((leb b'a' c && leb c b'f') || (leb b'A' c && leb c b'F'))

-- isalnum
unfoldable pub isalnum : ℕ → Bool
isalnum c = is_digit c || ((leb b'a' c && leb c b'z') || (leb b'A' c && leb c b'Z'))

unfoldable pub hexit : ℕ → ℕ
hexit c =
    if is_digit c
    then c - b'0'
    else if leb b'a' c && leb c b'f'
    then c - b'a' + 10
    else if leb b'A' c && leb c b'F'
    then c - b'A' + 10
    else 0

-- A lower-case digit as `%02x` prints it.
unfoldable pub hex_digit : ℕ → ℕ
hex_digit n = if ltb n 10 then b'0' + n else b'a' + (n - 10)

-- strchr("/_.-~", c) is not null, for a `c` that is not the closing zero.
unfoldable pub is_mark : ℕ → Bool
is_mark c = c == b'/' || (c == b'_' || (c == b'.' || (c == b'-' || c == b'~')))

-- What one round of the loop writes at `to`: the byte itself, or `%%%02x` of it.
unfoldable pub encode_char : ℕ → List ℕ
encode_char c =
    if isalnum c || is_mark c
    then c ∷ []
    else b'%' ∷ hex_digit (c % 256 / 16) ∷ hex_digit (c % 16) ∷ []

-- The loop of strencode from `tolen` bytes written on: the bytes it still writes before `\0`.
unfoldable pub strencode_from : ℕ → ℕ → List ℕ → List ℕ
strencode_from tosize tolen [] = []
strencode_from tosize tolen (c ∷ from) =
    if ltb (tolen + 4) tosize
    then encode_char c ++ strencode_from tosize (tolen + length (encode_char c)) from
    else []

unfoldable pub strencode : ℕ → List ℕ → List ℕ
strencode tosize from = strencode_from tosize 0 from

-- Memory is a function of the address.
abbrev pub Memory : Type 0
Memory = ℕ → ℕ

abbrev pub write : Memory → ℕ → ℕ → Memory
write m a v b = ite (ℕ_discrete a b) v (m b)

-- from[0] == '%' && isxdigit(from[1]) && isxdigit(from[2])
pub at_escape : Memory → ℕ → Bool
at_escape m from = m from == b'%' && (isxdigit (m (from + 1)) && isxdigit (m (from + 2)))

-- The loop of strdecode, on the memory that `to` and `from` both point into. The fuel is the
-- number of rounds: one more than the length of the string is enough (Decode).
pub strdecode : ℕ → Memory → ℕ → ℕ → Memory
strdecode zero m to from = m
strdecode (suc fuel) m to from =
    if m from == 0
    then write m to 0
    else if at_escape m from
    then strdecode fuel (write m to ((hexit (m (from + 1)) * 16 + hexit (m (from + 2))) % 256))
        (to + 1) (from + 3)
    else strdecode fuel (write m to (m from)) (to + 1) (from + 1)
