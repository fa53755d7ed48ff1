-- ===== src/Reactor.antt =====
-- linux-network/epoll-advance.c: the event table over an epoll tree, its callbacks and its loop.
pub mod Invariant
pub mod Callbacks
pub mod Dispatch
pub mod Writes
pub mod Dispatched
pub mod Sweep
pub mod Apart
pub mod Echo
pub mod Idle
pub mod Earlier
mod Tests
use linux_c_study.Prelude.{
  ℕ, zero, suc, ◌+◌, ◌-◌, Bool, true, false, ◌&&◌, ◌||◌, Option, none, some, List, [], ◌∷◌, ◌++◌,
  ℕ_discrete, leb, ◌==◌, if◌then◌else◌, length, take, replicate,
}
use mathlib.Core.Logic.{ite}
use linux_c_study.Kernel.{SysRet, failed, value, Answer, error, got}

abbrev pub max_events : ℕ
max_events = 1024

abbrev buflen : ℕ
buflen = 4096

-- The values of `events`: 0, EPOLLIN, EPOLLOUT.
pub data Interest : Type 0 where
  no_events epollin epollout : Interest

pub data Callback : Type 0 where
  null acceptconn recvdata senddata : Callback

-- struct myevent_s. `arg` is not kept: it is always the address of the slot itself. `buf` has the
-- bytes of the last read, behind which the array is zero.
pub record MyEvent : Type 0 where
  pub fd : ℕ
  pub events : Interest
  pub call_back : Callback
  pub status : Bool
  pub buf : List ℕ
  pub len : ℕ
  pub last_active : ℕ

-- The calls that a peer can see: a write that did not fail, with the descriptor and the bytes that it
-- was given, of which it may have taken a part; and a close.
pub data Action : Type 0 where
  wrote : ℕ → List ℕ → Action
  closed : ℕ → Action

-- g_events, with slot max_events for the listening socket; the tree of g_efd, which has for a
-- descriptor its events and the slot of its data.ptr; and the calls made, the last one first.
pub record Reactor : Type 0 where
  pub g_events : ℕ → MyEvent
  pub tree : ℕ → Option (Interest × ℕ)
  pub log : List Action

abbrev pub put {ℓ} : {A : Type ℓ} → (ℕ → A) → ℕ → A → ℕ → A
put f i a j = ite (ℕ_discrete i j) a (f j)

-- epoll_ctl: a descriptor is added only if it is not in the tree, and modified only if it is.
pub data Op : Type 0 where
  ctl_add ctl_mod : Op

pub epoll_ctl : Op → ℕ → Interest → ℕ → (ℕ → Option (Interest × ℕ)) → ℕ → Option (Interest × ℕ)
epoll_ctl ctl_add fd ev i tree = elim (tree fd) [
  | none ↦ put tree fd (some (ev, i))
  | some _ ↦ tree
]
epoll_ctl ctl_mod fd ev i tree = elim (tree fd) [
  | none ↦ tree
  | some _ ↦ put tree fd (some (ev, i))
]

-- The slot i, given a new value.
abbrev pub with_event : Reactor → ℕ → MyEvent → Reactor
with_event s i ev = record s { g_events = put s.g_events i ev }

-- eventset(&g_events[i], fd, call_back, &g_events[i]) at the time `now`.
pub eventset : ℕ → ℕ → ℕ → Callback → Reactor → Reactor
eventset now i fd call_back s = with_event s i (record (s.g_events i) {
  fd = fd;
  call_back = call_back;
  events = no_events;
  status = false;
  last_active = now;
})

pub eventdel : ℕ → Reactor → Reactor
eventdel i s =
    if (s.g_events i).status
    then record s {
      g_events = put s.g_events i (record (s.g_events i) { status = false });
      tree = put s.tree (s.g_events i).fd none;
    }
    else s

pub eventadd : Interest → ℕ → Reactor → Reactor
eventadd events i s =
    let op = if (s.g_events i).status then ctl_mod else ctl_add in
    record s {
      g_events = put s.g_events i (record (s.g_events i) { events = events; status = true });
      tree = epoll_ctl op (s.g_events i).fd events i s.tree;
    }

-- close(fd), which takes the descriptor off the tree.
pub close : ℕ → Reactor → Reactor
close fd s = record s { tree = put s.tree fd none; log = closed fd ∷ s.log }

-- The first slot from i on, of `rounds`, that is not in use.
pub find_free : (ℕ → MyEvent) → ℕ → ℕ → Option ℕ
find_free g zero i = none
find_free g (suc rounds) i =
    let rest = find_free g rounds (i + 1) in if (g i).status then rest else some i

-- What the system calls of one callback answer: accept and the second fcntl; read; write.
pub record Io : Type 0 where
  pub accepted : ℕ
  pub nonblocking : Bool
  pub received : Answer
  pub written : SysRet

-- The descriptor that accept returned is not closed when there is no slot or fcntl fails.
pub accept_conn : ℕ → Io → Reactor → Reactor
accept_conn now io s = elim (find_free s.g_events max_events 0) [
  | none ↦ s
  | some i ↦
      if io.nonblocking then eventadd epollin i (eventset now i io.accepted recvdata s) else s
]

-- The bytes read are stored, the slot goes off the tree, and back on it to write; or the descriptor
-- is closed (`else if(len = 0)` is never true: end of file and errors take the last branch).
pub recv_data : ℕ → ℕ → Answer → Reactor → Reactor
recv_data now i (got (b ∷ bs)) s =
    let ev = s.g_events i in
    let s1 = eventdel i (with_event s i (record ev { buf = b ∷ bs; len = length (b ∷ bs) })) in
    eventadd epollout i (eventset now i ev.fd senddata s1)
recv_data now i (got []) s =
    let ev = s.g_events i in close ev.fd (eventdel i (with_event s i (record ev { buf = [] })))
recv_data now i (error e) s =
    let ev = s.g_events i in close ev.fd (eventdel i (with_event s i (record ev { buf = [] })))

-- write(fd, ev->buf, sizeof(ev->buf)): the whole array.
pub whole_buf : List ℕ → List ℕ
whole_buf bs = take buflen (bs ++ replicate buflen 0)

pub send_data : ℕ → ℕ → SysRet → Reactor → Reactor
send_data now i (value (suc n)) s =
    let ev = s.g_events i in
    let s1 = record s { log = wrote ev.fd (whole_buf ev.buf) ∷ s.log } in
    eventadd epollin i (eventset now i ev.fd recvdata (eventdel i s1))
send_data now i (value zero) s = eventdel i (close (s.g_events i).fd s)
send_data now i (failed e) s = eventdel i (close (s.g_events i).fd s)

-- ev->call_back(ev->fd, …, ev)
pub run_callback : ℕ → ℕ → Io → Callback → Reactor → Reactor
run_callback now i io null s = s
run_callback now i io acceptconn s = accept_conn now io s
run_callback now i io recvdata s = recv_data now i io.received s
run_callback now i io senddata s = send_data now i io.written s

-- events[i].events: its bits EPOLLIN and EPOLLOUT, and whether any other is set.
pub record Revents : Type 0 where
  pub bit_in : Bool
  pub bit_out : Bool
  pub other : Bool

abbrev nonzero : Interest → Bool
nonzero no_events = false
nonzero epollin = true
nonzero epollout = true

abbrev pub has_out : Interest → Bool
has_out no_events = false
has_out epollin = false
has_out epollout = true

-- if((events[i].events && EPOLLIN) && (ev->events && EPOLLIN))
pub first_test : Revents → MyEvent → Bool
first_test re ev = (re.bit_in || (re.bit_out || re.other)) && nonzero ev.events

-- if((events[i].events & EPOLLOUT) && (ev->events & EPOLLOUT))
pub second_test : Revents → MyEvent → Bool
second_test re ev = re.bit_out && has_out ev.events

-- The body of the loop over the events, for the event with slot i: both tests in turn.
pub dispatch : ℕ → ℕ → Revents → Io → Io → Reactor → Reactor
dispatch now i re io1 io2 s =
    let s1 =
      if first_test re (s.g_events i)
      then run_callback now i io1 (s.g_events i).call_back s
      else s in
    if second_test re (s1.g_events i)
    then run_callback now i io2 (s1.g_events i).call_back s1
    else s1

-- One of the hundred checks for idle clients, at slot `checkpos`.
pub check : ℕ → ℕ → Reactor → Reactor
check now checkpos s =
    let ev = s.g_events checkpos in
    if ev.status && leb 60 (now - ev.last_active) then eventdel checkpos (close ev.fd s) else s

-- if (checkpos == MAX_EVENTS) checkpos = 0
pub wrapped : ℕ → ℕ
wrapped checkpos = if checkpos == max_events then 0 else checkpos

-- `n` rounds of the loop, and the `checkpos` that it leaves.
pub sweep : ℕ → ℕ → ℕ → Reactor → ℕ × Reactor
sweep zero now checkpos s = (checkpos, s)
sweep (suc n) now checkpos s = sweep n now (wrapped checkpos + 1) (check now (wrapped checkpos) s)

-- One event that epoll_wait reports, with what the calls of its callbacks answer.
pub record Event : Type 0 where
  pub slot : ℕ
  pub revents : Revents
  pub first : Io
  pub second : Io

pub dispatch_all : ℕ → List Event → Reactor → Reactor
dispatch_all now [] s = s
dispatch_all now (e ∷ es) s = dispatch_all now es (dispatch now e.slot e.revents e.first e.second s)

-- One round of `while(1)`, at the time `now`, when epoll_wait reports the events `es`.
pub turn : ℕ → List Event → ℕ → Reactor → ℕ × Reactor
turn now es checkpos s =
    let (checkpos', s') = sweep 100 now checkpos s in (checkpos', dispatch_all now es s')

-- initlistensocket, once the socket is bound and listens; the tree is empty.
pub initlistensocket : ℕ → ℕ → Reactor → Reactor
initlistensocket now g_lfd s =
    eventadd epollin max_events (eventset now max_events g_lfd acceptconn s)
