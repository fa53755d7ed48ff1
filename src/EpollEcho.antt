-- ===== src/EpollEcho.antt =====
-- linux-network/epoll.c, epoll-lt.c, epoll-et.c and epollEL-loop.c: echo servers over epoll. They
-- differ in the trigger that a client is watched with, in the length of `buf`, and in how often they
-- read when a client is reported.
pub mod Connection
pub mod Descriptors
pub mod Replies
mod Tests
use linux_c_study.Prelude.{
  ℕ, ◌⊎◌, inl, inr, Bool, true, false, Option, none, some, List, [], ◌∷◌, ◌++◌, ℕ_discrete, ◌==◌,
  if◌then◌else◌, take, replicate,
}
use mathlib.Core.Logic.{ite}
use linux_c_study.Kernel.{Errno, SysRet, failed, value, Answer, error, got, interrupted}
use linux_c_study.Prelude.Int.{ℤ, negsuc, pos}

-- EPOLLIN, and EPOLLIN | EPOLLET.
pub data Trigger : Type 0 where
  level : Trigger
  edge : Trigger

-- The descriptors and what the calls have done: which descriptors the epoll instance watches, which
-- are open, which have O_NONBLOCK set, and what has been written, the last call first.
pub record Server : Type 0 where
  pub ftd : ℕ
  pub epl : ℕ
  pub watched : ℕ → Option Trigger
  pub opened : ℕ → Bool
  pub nonblocking : ℕ → Bool
  pub log : List (ℕ × List ℕ)

abbrev pub put {ℓ} : {A : Type ℓ} → (ℕ → A) → ℕ → A → ℕ → A
put f i a j = ite (ℕ_discrete i j) a (f j)

-- main up to its loop: the answers of socket, bind, listen, epoll_create and epoll_ctl. That of
-- setsockopt is not looked at.
unfoldable pub setup : SysRet → SysRet → SysRet → SysRet → SysRet → ℤ ⊎ Server
setup (failed e) bound listening created added = inl (negsuc 0)
setup (value ftd) (failed e) listening created added = inl (negsuc 0)
setup (value ftd) (value b) (failed e) created added = inl (negsuc 0)
setup (value ftd) (value b) (value l) (failed e) added = inl (negsuc 0)
setup (value ftd) (value b) (value l) (value epl) (failed e) = inl (negsuc 0)
setup (value ftd) (value b) (value l) (value epl) (value a) = inr (record {
  ftd = ftd;
  epl = epl;
  watched = put (λ fd. none) ftd (some level);
  opened = put (put (λ fd. false) ftd true) epl true;
  nonblocking = λ fd. false;
  log = [];
})

-- The listening descriptor is reported. A failure of accept ends the program.
unfoldable pub accept_client : Trigger → SysRet → Server → ℤ ⊎ Server
accept_client t (failed e) s = inl (negsuc 0)
accept_client t (value cfd) s =
    inr (record s { watched = put s.watched cfd (some t); opened = put s.opened cfd true })

-- epollEL-loop.c sets O_NONBLOCK before it adds the descriptor.
unfoldable pub accept_nonblocking : SysRet → Server → ℤ ⊎ Server
accept_nonblocking (failed e) s = inl (negsuc 0)
accept_nonblocking (value cfd) s = inr (record s {
  watched = put s.watched cfd (some edge);
  opened = put s.opened cfd true;
  nonblocking = put s.nonblocking cfd true;
})

-- write(fd, buf, sizeof(buf)), with a buf of `size` bytes that is zero but for what the read stored.
unfoldable pub reply : ℕ → Answer → List ℕ
reply size (got bs) = take size (bs ++ replicate size 0)
reply size (error e) = take size (replicate size 0)

-- A client is reported, and read from once: at its end of file it is no longer watched, and its
-- descriptor stays open; a failed read is answered like any other.
unfoldable pub answer_client : ℕ → ℕ → Answer → Server → Server
answer_client size fd (got []) s = record s { watched = put s.watched fd none }
answer_client size fd (got (b ∷ bs)) s = record s { log = (fd, reply size (got (b ∷ bs))) ∷ s.log }
answer_client size fd (error e) s = record s { log = (fd, reply size (error e)) ∷ s.log }

-- The inner loop of epollEL-loop.c, over what its reads answer. Only a failed read ends it; `none`
-- if there is none.
unfoldable pub read_all : ℕ → List Answer → Server → Option Server
read_all fd [] s = none
read_all fd (error e ∷ answers) s = some s
read_all fd (got bs ∷ answers) s = read_all fd answers (answer_client 2 fd (got bs) s)

-- A descriptor that epoll_wait reports, with what accept or the reads then answer.
pub record Event : Type 0 where
  pub fd : ℕ
  pub accepted : SysRet
  pub answers : List Answer

-- What a program does on its two kinds of event: `accepts` is its call of accept, `reads` what it
-- does with a client, `none` if that does not come to an end.
module _ (accepts : SysRet → Server → ℤ ⊎ Server)
    (reads : ℕ → List Answer → Server → Option Server) where
  -- The loop over rece.
  unfoldable pub events : List Event → Server → Option (ℤ ⊎ Server)
  events [] s = some (inr s)
  events (e ∷ es) s = elim (s.ftd == e.fd) [
    | true ↦ elim (accepts e.accepted s) [ inl r ↦ some (inl r) | inr s' ↦ events es s' ]
    | false ↦ elim (reads e.fd e.answers s) [ none ↦ none | some s' ↦ events es s' ]
  ]

  -- The loop of main over what epoll_wait answers: an errno, or the events. The program goes on
  -- after an interrupted call, and returns 0 after another failure.
  unfoldable pub rounds : List (Errno ⊎ List Event) → Server → Option (ℤ ⊎ Server)
  rounds [] s = some (inr s)
  rounds (inl e ∷ ws) s =
      let rest = rounds ws s in if interrupted e then rest else some (inl (pos 0))
  rounds (inr es ∷ ws) s = elim (events es s) [
    | none ↦ none
    | some (inl r) ↦ some (inl r)
    | some (inr s') ↦ rounds ws s'
  ]

-- One read for each report.
unfoldable pub read_once : ℕ → ℕ → List Answer → Server → Option Server
read_once size fd [] s = none
read_once size fd (a ∷ answers) s = some (answer_client size fd a s)

-- The four programs' loops.
unfoldable pub epoll : List (Errno ⊎ List Event) → Server → Option (ℤ ⊎ Server)
epoll = rounds (accept_client level) (read_once 1024)

unfoldable pub epoll_lt : List (Errno ⊎ List Event) → Server → Option (ℤ ⊎ Server)
epoll_lt = rounds (accept_client level) (read_once 2)

unfoldable pub epoll_et : List (Errno ⊎ List Event) → Server → Option (ℤ ⊎ Server)
epoll_et = rounds (accept_client edge) (read_once 2)

unfoldable pub epoll_el_loop : List (Errno ⊎ List Event) → Server → Option (ℤ ⊎ Server)
epoll_el_loop = rounds accept_nonblocking read_all
