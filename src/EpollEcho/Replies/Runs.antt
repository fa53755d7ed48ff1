-- ===== src/EpollEcho/Replies/Runs.antt =====
-- What each client of the four echo servers is sent, over whole runs.
use linux_c_study.Prelude.{ℕ, ◌⊎◌, Option, List}
use linux_c_study.Kernel.{Errno, Answer}
use linux_c_study.Prelude.Int.{ℤ}
use linux_c_study.EpollEcho.{Server, Event, epoll, epoll_lt, epoll_et, epoll_el_loop}
use linux_c_study.EpollEcho.Replies.{once, up_to_error}

-- The four programs, their runs, and what they should reply to the reads of one report.
pub data Program : Type 0 where
  epoll_c epoll_lt_c epoll_et_c epoll_el_loop_c : Program

unfoldable pub run : Program → List (Errno ⊎ List Event) → Server → Option (ℤ ⊎ Server)
run epoll_c = epoll
run epoll_lt_c = epoll_lt
run epoll_et_c = epoll_et
run epoll_el_loop_c = epoll_el_loop

abbrev pub should_reply : Program → List Answer → List (List ℕ)
should_reply epoll_c = once 1024
should_reply epoll_lt_c = once 2
should_reply epoll_et_c = once 2
should_reply epoll_el_loop_c = up_to_error
