-- ===== src/Reactor/Callbacks.antt =====
-- The callbacks and the check for an idle client keep the table valid.
use linux_c_study.Prelude.{
  ℕ, zero, suc, ◌-◌, ◌≡◌, refl, inl, inr, true, ◌&&◌, none, [], ◌∷◌, arith, leb, Bool-cases,
  Option-cases, length,
}
use linux_c_study.Kernel.{SysRet, failed, value, Answer, error, got}
use linux_c_study.Reactor.{
  max_events, epollin, epollout, recvdata, senddata, Reactor, eventdel, close, find_free, Io,
  accept_conn, recv_data, send_data, check,
}
use linux_c_study.Reactor.Invariant.{
  IsValid, release-IsValid, touch-IsValid, log-IsValid, eventdel-Deleted, rearm-IsValid,
  find_free-status,
}

-- A new connection keeps the table valid: its descriptor is open, so it was not in the tree.
pub accept_conn-IsValid :
    (now : ℕ) (io : Io) (s : Reactor)
    → IsValid s
    → s.tree io.accepted ≡ none
    → IsValid (accept_conn now io s)
unfolding accept_conn
accept_conn-IsValid now io s v fresh = elim (Option-cases (find_free s.g_events max_events 0)) [
  | inl full ↦ rw (full, accept_conn) v
  | inr (i, free) ↦ elim (Bool-cases io.nonblocking) [
    | inl b ↦
        rw (free, accept_conn)
          (rw b (
            rearm-IsValid now i io.accepted recvdata epollin s v
              (find_free-status s.g_events max_events 0 free).0 fresh refl))
    | inr b ↦ rw (free, accept_conn) (rw b v)
  ]
]

pub closed-IsValid : (s : Reactor) (fd : ℕ) → IsValid s → s.tree fd ≡ none → IsValid (close fd s)
unfolding close
closed-IsValid s fd v gone = record {
  in_tree = λ j h. ground (arith, v.in_tree j);
  matching = v.matching;
  in_use = λ f j e h. ground (arith, v.in_use f j e);
  own_fd = λ f j e h. ground (arith, v.own_fd f j e);
}

-- A read keeps the table valid, whether it brings bytes, the end of the stream or an error.
pub recv_data-IsValid :
    (now i : ℕ) (a : Answer) (s : Reactor)
    → IsValid s
    → (s.g_events i).status ≡ true
    → IsValid (recv_data now i a s)
unfolding recv_data
recv_data-IsValid now i (got (b ∷ bs)) s v on =
    let d = eventdel-Deleted _ i (touch-IsValid s i (b ∷ bs) (length (b ∷ bs)) v) (ground arith) in
    rearm-IsValid now i (s.g_events i).fd senddata epollout _ d.valid d.off (ground (arith, d.gone))
      refl
recv_data-IsValid now i (got []) s v on =
    let d = eventdel-Deleted _ i (touch-IsValid s i [] (s.g_events i).len v) (ground arith) in
    closed-IsValid _ (s.g_events i).fd d.valid (ground (arith, d.gone))
recv_data-IsValid now i (error e) s v on =
    let d = eventdel-Deleted _ i (touch-IsValid s i [] (s.g_events i).len v) (ground arith) in
    closed-IsValid _ (s.g_events i).fd d.valid (ground (arith, d.gone))

-- Closing a descriptor in use and then taking its slot out of use.
close-eventdel-IsValid :
    (s : Reactor) (i : ℕ)
    → IsValid s
    → (s.g_events i).status ≡ true
    → IsValid (eventdel i (close (s.g_events i).fd s))
unfolding eventdel close
close-eventdel-IsValid s i v on = rw on (release-IsValid s i _ _ _ v on refl (λ fd. ground arith))

-- A write keeps the table valid, whether it succeeds or fails.
pub send_data-IsValid :
    (now i : ℕ) (r : SysRet) (s : Reactor)
    → IsValid s
    → (s.g_events i).status ≡ true
    → IsValid (send_data now i r s)
unfolding send_data
send_data-IsValid now i (value (suc n)) s v on =
    let d = eventdel-Deleted _ i (log-IsValid s _ v) on in
    rearm-IsValid now i (s.g_events i).fd recvdata epollin _ d.valid d.off d.gone refl
send_data-IsValid now i (value zero) s v on = close-eventdel-IsValid s i v on
send_data-IsValid now i (failed e) s v on = close-eventdel-IsValid s i v on

-- A check for an idle client keeps the table valid.
pub check-IsValid : (now i : ℕ) (s : Reactor) → IsValid s → IsValid (check now i s)
unfolding check
check-IsValid now i s v =
    elim (Bool-cases ((s.g_events i).status && leb 60 (now - (s.g_events i).last_active))) [
      | inl e ↦ rw e (close-eventdel-IsValid s i v (ground arith))
      | inr e ↦ rw e v
    ]
