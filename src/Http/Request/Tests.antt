-- ===== src/Http/Request/Tests.antt =====
-- Request lines.
use linux_c_study.Prelude.{ℕ, ◌≡◌, List, arith}
use linux_c_study.Prelude.Bytes.{codes}
use linux_c_study.Http.Request.{scan_request}
use linux_c_study.Http.Request.Laws.{scan_request-request_line}

abbrev song : List ℕ
song = codes "my song.mp3"

scan_request-request_line_example :
    scan_request (codes "GET /a.c HTTP/1.1\r\n")
    ≡ record { req_type = codes "GET"; file_name = codes "/a.c"; protocal = codes "HTTP/1.1" }
scan_request-request_line_example =
    scan_request-request_line (codes "GET") (codes "/a.c") (codes "HTTP/1.1")
      (omega arith, omega arith, omega arith) (ground arith) (ground arith) (ground arith)
