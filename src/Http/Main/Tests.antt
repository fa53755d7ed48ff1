-- ===== src/Http/Main/Tests.antt =====
-- Two browsers at once.
use linux_c_study.Prelude.{ℕ, ◌≡◌, refl, none, [], ◌∷◌}
use linux_c_study.Kernel.{Errno, failed, value, World, eintr}
use linux_c_study.Prelude.Int.{pos}
use linux_c_study.Http.Service.{Files}
use linux_c_study.Http.Main.{after_wait, again, soc, Server, running, return_code, setup}

abbrev listening : Server
listening = record {
  sfd = 3;
  cli_ftd = 0;
  tree = (3, soc) ∷ [];
  reader = record { read_buf = []; read_ptr = 0; read_cnt = 0 };
}

set_up : setup (value 3) (value 0) (value 0) (value 0) (value 4) ≡ running listening []
unfolding setup
set_up = refl

-- listen(2) fails: the exit status is that of success.
listen_fails : setup (value 3) (value 0) (value 0) (failed eintr) (value 4) ≡ return_code (pos 0)
unfolding setup
listen_fails = refl

abbrev no_files : Files
no_files = record { stat = λ p. none; reads = λ p. none; scandir = λ p. none }

abbrev streams : ℕ → World
streams fd = record { pending = []; turns = [] }

-- Whatever the error of epoll_wait is, main goes on.
wait_fails : (e : Errno) → after_wait (failed e) ≡ again
unfolding after_wait
wait_fails e = refl
