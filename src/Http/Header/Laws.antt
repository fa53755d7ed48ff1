-- ===== src/Http/Header/Laws.antt =====
-- What a client reads in the head of a response, and that the head fits the buffer.
use linux_c_study.Prelude.{
  ℕ, ◌+◌, ◌%◌, ◌^◌, ◌≤◌, ◌<◌, ◌≡◌, sym, ap, ◌∙◌, ◌⊎◌, List, [], ◌++◌, append_assoc, arith, lt→ltb,
  le→leb, length, length-append,
}
use linux_c_study.Prelude.Int.{ℤ}
use linux_c_study.Prelude.Bytes.{codes}
use linux_c_study.Http.Header.{digits, decimal, int_of, crlf, content_length, send_header}
use linux_c_study.Http.Header.Decimal.{value, value-digits, length-digits}

-- The two lines that every head begins with.
abbrev pub first_lines : List ℕ → List ℕ → List ℕ → List ℕ
first_lines status msg file_type =
    (codes "HTTP/1.1 " ++ (status ++ (codes " " ++ (msg ++ crlf))))
    ++ (codes "Content-Type:" ++ (file_type ++ crlf))

send_header-first_lines :
    (status msg file_type : List ℕ) (len : ℤ)
    → send_header status msg file_type len
      ≡ first_lines status msg file_type ++ (content_length len ++ crlf)
unfolding send_header
send_header-first_lines status msg file_type len = sym (
    append_assoc (codes "HTTP/1.1 " ++ (status ++ (codes " " ++ (msg ++ crlf))))
      (codes "Content-Type:" ++ (file_type ++ crlf)) (content_length len ++ crlf))

content_length-int_of :
    (size : ℕ)
    → 1 ≤ size
    → size < 2 ^ 31
    → content_length (int_of size) ≡ codes "Content-Length:" ++ (digits 10 size ++ crlf)
unfolding content_length int_of decimal
content_length-int_of size p h =
    let low : size % 2 ^ 32 ≡ size = omega arith in
    rw (low, lt→ltb size (2 ^ 31) h, le→leb 1 size p)

-- For a file of 1 to 2^31 - 1 bytes the head is the two lines, a Content-Length whose digits stand
-- for the size of the file, and the empty line.
pub send_header_length :
    (status msg file_type : List ℕ) (size : ℕ)
    → 1 ≤ size
    → size < 2 ^ 31
    → (ds : List ℕ) × (value ds ≡ size)
      × (send_header status msg file_type (int_of size)
          ≡ first_lines status msg file_type ++ ((codes "Content-Length:" ++ (ds ++ crlf)) ++ crlf))
send_header_length status msg file_type size p h = (
  digits 10 size,
  value-digits 10 size (omega arith),
  send_header-first_lines status msg file_type (int_of size)
      ∙ ap (λ l. first_lines status msg file_type ++ (l ++ crlf)) (content_length-int_of size p h),
)

content_length-wrapped :
    (size : ℕ)
    → ((2 ^ 31 ≤ size % 2 ^ 32) ⊎ (size % 2 ^ 32 ≡ 0))
    → content_length (int_of size) ≡ []
unfolding content_length int_of
content_length-wrapped size h = ground arith

-- The size is passed as an int: a file whose size modulo 2^32 is 0, or is 2^31 or more, gets no
-- Content-Length.
pub send_header_wraps :
    (status msg file_type : List ℕ) (size : ℕ)
    → (2 ^ 31 ≤ size % 2 ^ 32) ⊎ (size % 2 ^ 32 ≡ 0)
    → send_header status msg file_type (int_of size) ≡ first_lines status msg file_type ++ crlf
send_header_wraps status msg file_type size h =
    send_header-first_lines status msg file_type (int_of size)
    ∙ ap (λ l. first_lines status msg file_type ++ (l ++ crlf)) (content_length-wrapped size h)

length-content_length : (size : ℕ) → length (content_length (int_of size)) ≤ 27
unfolding content_length int_of decimal
length-content_length size =
    ground (arith, length-digits 10 (size % 2 ^ 32), length-append (digits 10 (size % 2 ^ 32)) crlf)

-- With a status of at most 3 bytes, a message of up to 9 and a content type of up to 40, the head
-- and its closing zero fit the buffer of 1024 bytes, whatever the size.
pub send_header_fits :
    (status msg file_type : List ℕ) (size : ℕ)
    → length status ≤ 3
    → length msg ≤ 9
    → length file_type ≤ 40
    → length (send_header status msg file_type (int_of size)) + 1 ≤ 1024
unfolding send_header
send_header_fits status msg file_type size p q r =
    simp length-append (omega (arith, length-content_length size))
