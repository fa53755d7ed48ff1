-- ===== src/Reactor/Earlier.antt =====
-- linux-network/epoll-advance1.c, the version of epoll-advance.c before it. It has the same slots, and
-- the same eventset, eventadd, eventdel, acceptconn, recvdata and checks for idle clients, which are
-- those of Reactor here; it differs in senddata, in the tests of main, and in initlistensocket, which
-- adds the socket to the tree before it is bound. It calls Accept, Read, Write and Close of wrap.c, which
-- try again after a signal; Accept and Close end the program on other errors. The answers here are what
-- comes out of them, in a run that goes on.
pub mod Single
pub mod Once
mod Tests
use linux_c_study.Prelude.{
  ℕ, zero, suc, Bool, true, false, ◌&&◌, List, [], ◌∷◌, ◌++◌, map, if◌then◌else◌, take, drop,
}
use linux_c_study.Kernel.{SysRet, failed, value}
use linux_c_study.Reactor.{
  Interest, no_events, epollin, epollout, Callback, null, acceptconn, recvdata, senddata, wrote,
  Reactor, eventset, eventdel, eventadd, close, Io, accept_conn, recv_data, Revents, has_out, sweep,
  Event, with_event, max_events,
}
use linux_c_study.SelectServer.{toupper}
use linux_c_study.Wrap.Connect.{Outcome, returned, ◌>>=◌, socket, bind, listen}

-- The bytes in capitals are stored, and as many as were read are written.
pub send_data : ℕ → ℕ → SysRet → Reactor → Reactor
send_data now i (value (suc n)) s =
    let ev = s.g_events i in
    let bs = map toupper (take ev.len ev.buf) ++ drop ev.len ev.buf in
    let s1 = record (with_event s i (record ev { buf = bs })) {
      log = wrote ev.fd (take ev.len bs) ∷ s.log;
    } in
    eventadd epollin i (eventset now i ev.fd recvdata (eventdel i s1))
send_data now i (value zero) s =
    let ev = s.g_events i in
    let bs = map toupper (take ev.len ev.buf) ++ drop ev.len ev.buf in
    eventdel i (close ev.fd (with_event s i (record ev { buf = bs })))
send_data now i (failed e) s =
    let ev = s.g_events i in
    let bs = map toupper (take ev.len ev.buf) ++ drop ev.len ev.buf in
    eventdel i (close ev.fd (with_event s i (record ev { buf = bs })))

-- ev->call_back(ev->fd, …, ev)
pub run_callback : ℕ → ℕ → Io → Callback → Reactor → Reactor
run_callback now i io null s = s
run_callback now i io acceptconn s = accept_conn now io s
run_callback now i io recvdata s = recv_data now i io.received s
run_callback now i io senddata s = send_data now i io.written s

abbrev pub has_in : Interest → Bool
has_in no_events = false
has_in epollin = true
has_in epollout = false

-- One of the two tests of main, with what it guards.
pub callback_if : Bool → ℕ → ℕ → Io → Reactor → Reactor
callback_if test now i io s = if test then run_callback now i io (s.g_events i).call_back s else s

-- The body of the loop over the events, for the event with slot i: both tests in turn.
pub dispatch : ℕ → ℕ → Revents → Io → Io → Reactor → Reactor
dispatch now i re io1 io2 s =
    let s1 = callback_if (re.bit_in && has_in (s.g_events i).events) now i io1 s in
    callback_if (re.bit_out && has_out (s1.g_events i).events) now i io2 s1

pub dispatch_all : ℕ → List Event → Reactor → Reactor
dispatch_all now [] s = s
dispatch_all now (e ∷ es) s = dispatch_all now es (dispatch now e.slot e.revents e.first e.second s)

-- One round of `while(1)`, at the time `now`, when epoll_wait reports the events `es`.
pub turn : ℕ → List Event → ℕ → Reactor → ℕ × Reactor
turn now es checkpos s =
    let (checkpos', s') = sweep 100 now checkpos s in (checkpos', dispatch_all now es s')

-- initlistensocket, with the wrappers of wrap.c, which end the program when a call fails: the answers
-- of socket, bind and listen. The slot is on the tree before the socket is bound.
pub initlistensocket : ℕ → SysRet → SysRet → SysRet → Reactor → Outcome Reactor
initlistensocket now created bound listening s = socket created >>= λ g_lfd. bind bound >>= λ n.
    listen listening >>= λ m.
    returned (eventadd epollin max_events (eventset now max_events g_lfd acceptconn s))
