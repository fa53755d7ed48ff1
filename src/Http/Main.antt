-- ===== src/Http/Main.antt =====
-- httpService/http_service.c: main, the listening socket and the loop over the epoll events.
pub mod Shared
mod Tests
use linux_c_study.Prelude.{ℕ, Option, none, some, List, [], ◌∷◌, ◌==◌, if◌then◌else◌}
use linux_c_study.Kernel.{SysRet, failed, value, World}
use linux_c_study.Prelude.Int.{ℤ, pos, negsuc}
use linux_c_study.Wrap.{Reader}
use linux_c_study.Http.Service.{Action, send, shut, epoll_del, Files, http_service}

-- The two objects of the type `client` that main has, as an event's data.ptr names them.
pub data Ptr : Type 0 where
  soc cli_con : Ptr

-- soc.ftd is `sfd`; `cli_ftd` is cli_con.ftd. The tree holds a descriptor with its data.ptr, and
-- `reader` the static variables of char_read, which all connections share.
pub record Server : Type 0 where
  pub sfd : ℕ
  pub cli_ftd : ℕ
  pub tree : List (ℕ × Ptr)
  pub reader : Reader

-- What main does next.
pub data Next : Type 0 where
  return_code : ℤ → Next
  running : Server → List Action → Next
  waiting : Next

-- What sigaction, memset and printf do is left out. The answers are those of socket, setsockopt,
-- bind, listen and epoll_create.
pub setup : SysRet → SysRet → SysRet → SysRet → SysRet → Next
setup (failed e) opt bound listening created = return_code (negsuc 0)
setup (value sfd) (failed e) bound listening created = return_code (negsuc 0)
setup (value sfd) (value o) (failed e) listening created = return_code (negsuc 0)
setup (value sfd) (value o) (value b) (failed e) created = return_code (pos 0)
setup (value sfd) (value o) (value b) (value l) (failed e) = return_code (negsuc 0)
setup (value sfd) (value o) (value b) (value l) (value epfd) =
    running
      (record {
        sfd = sfd;
        cli_ftd = 0;
        tree = (sfd, soc) ∷ [];
        reader = record { read_buf = []; read_ptr = 0; read_cnt = 0 };
      })
      []

-- The data.ptr of the event of a descriptor.
unfoldable pub data_ptr : List (ℕ × Ptr) → ℕ → Option Ptr
data_ptr [] fd = none
data_ptr ((f, p) ∷ tree) fd = if f == fd then some p else data_ptr tree fd

-- epoll_ctl(epfd, EPOLL_CTL_DEL, fd, …)
pub without : List (ℕ × Ptr) → ℕ → List (ℕ × Ptr)
without [] fd = []
without ((f, p) ∷ tree) fd = let rest = without tree fd in if f == fd then rest else (f, p) ∷ rest

remove_all : List (ℕ × Ptr) → List Action → List (ℕ × Ptr)
remove_all tree [] = tree
remove_all tree (epoll_del fd ∷ acts) = remove_all (without tree fd) acts
remove_all tree (send fd bs ∷ acts) = remove_all tree acts
remove_all tree (shut fd ∷ acts) = remove_all tree acts

-- c->ftd
pub ftd : Server → Ptr → ℕ
ftd s soc = s.sfd
ftd s cli_con = s.cli_ftd

-- A new connection: cli_con is filled in, and its address is the event's data.ptr.
pub accept_client : Server → SysRet → Next
accept_client s (failed e) = return_code (negsuc 0)
accept_client s (value cfd) =
    running (record s { cli_ftd = cfd; tree = (cfd, cli_con) ∷ s.tree }) []

-- http_service(c, epfd), where `worlds` has the stream of each descriptor.
pub serve : Files → (ℕ → World) → Server → ℕ → Next
serve fs worlds s fd = elim (http_service fs fd s.reader (worlds fd)) [
  | none ↦ waiting
  | some (acts, r, w) ↦ running (record s { tree = remove_all s.tree acts; reader = r }) acts
]

-- One event of the descriptor `fd`, with what accept(2) answers in its case. A descriptor that is
-- not in the tree has no event.
pub main_event : Files → (ℕ → World) → Server → ℕ → SysRet → Next
main_event fs worlds s fd accepted = elim (data_ptr s.tree fd) [
  | none ↦ waiting
  | some p ↦ if ftd s p == s.sfd then accept_client s accepted else serve fs worlds s (ftd s p)
]

-- What follows epoll_wait: with `if(errno = EINTR)` the assignment is the test, and it is true for
-- every error.
pub data Waited : Type 0 where
  again : Waited
  broke : Waited
  events : ℕ → Waited

-- EINTR is 4.
pub after_wait : SysRet → Waited
after_wait (value nread) = events nread
after_wait (failed e) = let errno : ℕ = 4 in if errno == 0 then broke else again
