-- ===== src/Http/Service/Laws.antt =====
-- http_service returns, and what it answers to a request.
use linux_c_study.Prelude.{ℕ, ◌≡◌, false, some, [], ◌∷◌}
use linux_c_study.Kernel.{World}
use linux_c_study.Prelude.Int.{is_positive}
use linux_c_study.Wrap.{Reader, Line}
use linux_c_study.Http.Reader.{read_line}
use linux_c_study.Http.Service.{shut, epoll_del, Files, http_service}

-- A request line that cannot be read, or an empty one, closes the descriptor and takes it off the
-- tree, in this order, and nothing is sent.
pub http_service_closes :
    (fs : Files) (fd : ℕ) (r : Reader) (w : World) {l : Line}
    → read_line 1024 r w ≡ some l
    → is_positive l.result ≡ false
    → http_service fs fd r w ≡ some (shut fd ∷ epoll_del fd ∷ [], l.reader, l.world)
unfolding http_service
http_service_closes fs fd r w read p = rw (read, http_service) (rw p)
