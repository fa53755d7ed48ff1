-- ===== src/Reactor/Earlier/Tests.antt =====
-- linux-network/epoll-advance1.c: a client in slot 0, on descriptor 5.
use linux_c_study.Prelude.{◌≤◌, ◌≡◌, refl, true, false, none, some, [], ◌∷◌}
use linux_c_study.Kernel.{failed, value, other, got}
use linux_c_study.Reactor.{epollin, recvdata, MyEvent, Reactor, put, Io, Revents}
use linux_c_study.Reactor.Earlier.{dispatch, initlistensocket}
use linux_c_study.Wrap.Connect.{exited, socket, bind}
use linux_c_study.Reactor.Earlier.Once.{dispatch-closes_once}
use linux_c_study.Reactor.Earlier.Single.{closes}

abbrev client : MyEvent
client = record {
  fd = 5;
  events = epollin;
  call_back = recvdata;
  status = true;
  buf = [];
  len = 0;
  last_active = 10;
}

abbrev one_client : Reactor
one_client = record {
  g_events = λ i. client;
  tree = put (λ fd. none) 5 (some (epollin, 0));
  log = [];
}

-- The client has sent "ab", which has been read, and is hung up when it is written to.
abbrev io : Io
io = record {
  accepted = 6;
  nonblocking = true;
  received = got (97 ∷ 98 ∷ []);
  written = failed other;
}

abbrev both : Revents
both = record { bit_in = true; bit_out = true; other = false }

dispatch-closes_once_example : closes (dispatch 12 0 both io io one_client).log ≤ 1
dispatch-closes_once_example = dispatch-closes_once 12 0 both io io one_client

-- A failure of bind ends the program.
initlistensocket-bind :
    initlistensocket 12 (value 3) (failed other) (value 0) one_client ≡ exited 255
unfolding initlistensocket socket bind
initlistensocket-bind = refl
