-- ===== src/Reactor/Writes.antt =====
-- linux-network/epoll-advance.c: what the second test of an event may meet, and what the write
-- callback then does.
use linux_c_study.Prelude.{ℕ, zero, suc, ◌≡◌, refl, inl, inr, false, none, ◌∷◌, Bool-cases}
use linux_c_study.Kernel.{SysRet, failed, value}
use linux_c_study.Reactor.{
  whole_buf, wrote, epollin, recvdata, senddata, Reactor, eventdel, close, Io, send_data,
  run_callback,
}
use linux_c_study.Reactor.Invariant.{IsValid, rearm-IsValid, log-IsValid}
use linux_c_study.Reactor.Callbacks.{send_data-IsValid, closed-IsValid}

-- What the second test may meet: the slot waits to write and has its write callback, and it is
-- in use, or it is not and its descriptor is off the tree.
pub record Writes (i : ℕ) (s : Reactor) : Type 0 where
  pub callback : (s.g_events i).call_back ≡ senddata
  pub at_rest : (s.g_events i).status ≡ false → s.tree (s.g_events i).fd ≡ none

eventdel-off : (i : ℕ) (s : Reactor) → (s.g_events i).status ≡ false → eventdel i s ≡ s
unfolding eventdel
eventdel-off i s off = rw off refl

close-off :
    (i : ℕ) (s : Reactor)
    → (s.g_events i).status ≡ false
    → ((close (s.g_events i).fd s).g_events i).status ≡ false
unfolding close
close-off i s off = off

off-IsValid :
    (now i : ℕ) (r : SysRet) (s : Reactor)
    → IsValid s
    → (s.g_events i).status ≡ false
    → s.tree (s.g_events i).fd ≡ none
    → IsValid (send_data now i r s)
unfolding send_data
off-IsValid now i (value (suc n)) s v off gone =
    let s1 = record s { log = wrote (s.g_events i).fd (whole_buf (s.g_events i).buf) ∷ s.log } in
    rw (eventdel-off i s1 off)
      (rearm-IsValid now i (s.g_events i).fd recvdata epollin s1 (log-IsValid s _ v) off gone refl)
off-IsValid now i (value zero) s v off gone =
    rw (eventdel-off i (close (s.g_events i).fd s) (close-off i s off))
      (closed-IsValid s (s.g_events i).fd v gone)
off-IsValid now i (failed e) s v off gone =
    rw (eventdel-off i (close (s.g_events i).fd s) (close-off i s off))
      (closed-IsValid s (s.g_events i).fd v gone)

pub Writes-IsValid :
    (now i : ℕ) (io : Io) (s : Reactor)
    → IsValid s
    → Writes i s
    → IsValid (run_callback now i io (s.g_events i).call_back s)
unfolding run_callback
Writes-IsValid now i io s v w = elim (Bool-cases (s.g_events i).status) [
  | inl on ↦ rw w.callback (send_data-IsValid now i io.written s v on)
  | inr off ↦ rw w.callback (off-IsValid now i io.written s v off (w.at_rest off))
]
