-- ===== src/Http/Header/Tests.antt =====
-- Heads of concrete responses.
use linux_c_study.Prelude.{ℕ, ◌≡◌, refl, List}
use linux_c_study.Prelude.Bytes.{codes}
use linux_c_study.Prelude.Int.{pos}
use linux_c_study.Http.Header.{digits, decimal, content_length, send_header}

abbrev html : List ℕ
html = codes "text/html; charset=utf-8"

head :
    send_header (codes "200") (codes "OK") html (pos 120)
    ≡ codes "HTTP/1.1 200 OK\r\nContent-Type:text/html; charset=utf-8\r\nContent-Length:120\r\n\r\n"
unfolding send_header content_length decimal digits
head = refl
