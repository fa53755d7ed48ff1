-- ===== src/Http/Service/Named.antt =====
-- A file of the page that http_service.c writes for a directory, asked for by the name on that page:
-- from the bytes of the request to those of the answer.
use linux_c_study.Prelude.{ℕ, ◌≡◌, false, List, ◌∷◌, ◌++◌, ◌==◌}
use linux_c_study.Prelude.Bytes.{codes, All}
use linux_c_study.Http.Request.{Request}
use linux_c_study.Http.Request.Laws.{request_line}

-- Bytes that strdecode leaves as they are.
abbrev pub NoPercent : List ℕ → Type 0
NoPercent = All (λ c. (c == b'%') ≡ false)

-- GET /NAME HTTP/1.1, with CR LF.
abbrev pub name_request : List ℕ → List ℕ
name_request name = request_line (codes "GET") (b'/' ∷ name) (codes "HTTP/1.1")

-- The same, less its LF.
abbrev line_of : List ℕ → List ℕ
line_of name = codes "GET /" ++ (name ++ codes " HTTP/1.1\r")

asked : List ℕ → Request
asked name = record { req_type = codes "GET"; file_name = b'/' ∷ name; protocal = codes "HTTP/1.1" }
