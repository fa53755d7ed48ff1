-- ===== src/Http/Header.antt =====
-- httpService/http_service.c: send_header, the head of a response.
pub mod Decimal
pub mod Laws
mod Tests
use linux_c_study.Prelude.{
  ℕ, zero, suc, ◌+◌, ◌-◌, ◌/◌, ◌%◌, ◌^◌, List, [], ◌∷◌, ◌++◌, ltb, if◌then◌else◌,
}
use linux_c_study.Prelude.Int.{ℤ, pos, negsuc, is_positive}
use linux_c_study.Prelude.Bytes.{codes}

-- `%d` of a number below 10 ^ fuel, most significant digit first.
pub digits : ℕ → ℕ → List ℕ
digits zero n = []
digits (suc fuel) n =
    let more = digits fuel (n / 10) in
    if ltb n 10 then (b'0' + n) ∷ [] else more ++ ((b'0' + n % 10) ∷ [])

-- sprintf of `%d` with a 32-bit int: at most ten digits.
pub decimal : ℤ → List ℕ
decimal (pos n) = digits 10 n
decimal (negsuc n) = b'-' ∷ digits 10 (n + 1)

-- An off_t passed as an int: its low 32 bits, read as a signed number.
pub int_of : ℕ → ℤ
int_of n =
    let low : ℕ = n % 2 ^ 32 in if ltb low (2 ^ 31) then pos low else negsuc (2 ^ 32 - low - 1)

abbrev pub crlf : List ℕ
crlf = codes "\r\n"

-- The line with the length of the file, for a positive length.
pub content_length : ℤ → List ℕ
content_length len =
    if is_positive len then codes "Content-Length:" ++ (decimal len ++ crlf) else []

-- The bytes that send_header writes. They fit its buffer of 1024 bytes (Laws).
pub send_header : List ℕ → List ℕ → List ℕ → ℤ → List ℕ
send_header status msg file_type len =
    (codes "HTTP/1.1 " ++ (status ++ (codes " " ++ (msg ++ crlf))))
    ++ ((codes "Content-Type:" ++ (file_type ++ crlf)) ++ (content_length len ++ crlf))
