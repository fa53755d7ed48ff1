-- ===== src/Reactor/Earlier/Once.antt =====
-- linux-network/epoll-advance1.c: no event closes a descriptor twice, and what is read is sent back in
-- capitals.
use linux_c_study.Prelude.{
  ℕ, suc, ◌≤◌, ◌≡◌, refl, sym, ap, ap₂, ◌∙◌, inl, inr, Bool, true, false, ◌&&◌, List, [], ◌∷◌, ◌++◌,
  map, arith, ℕ_discrete, Bool-cases, length, take, drop,
}
use linux_c_study.Kernel.{value, got}
use linux_c_study.Reactor.{
  Action, wrote, Reactor, eventset, eventdel, eventadd, Io, recv_data, Revents, has_out, with_event,
}
use linux_c_study.Reactor.Earlier.{send_data, has_in, dispatch, callback_if}
use linux_c_study.SelectServer.{toupper}
use mathlib.Core.Path.{subst}
use linux_c_study.Reactor.Apart.{eventdel-log}
use linux_c_study.Reactor.Earlier.Single.{closes, Single, callback_if-Single, has_out-has_in}

-- One event, whatever it is and whatever the calls of its callbacks answer, closes a descriptor once
-- at most.
pub dispatch-closes_once :
    (now i : ℕ) (re : Revents) (io1 io2 : Io) (s : Reactor)
    → closes (dispatch now i re io1 io2 s).log ≤ suc (closes s.log)
unfolding dispatch callback_if
dispatch-closes_once now i re io1 io2 s =
    let b1 = re.bit_in && has_in (s.g_events i).events in
    go b1 refl (callback_if-Single b1 now i io1 s)
  where
    second :
        (s1 : Reactor)
        → closes (callback_if (re.bit_out && has_out (s1.g_events i).events) now i io2 s1).log
          ≤ suc (closes s1.log)
    second s1 =
        (callback_if-Single (re.bit_out && has_out (s1.g_events i).events) now i io2 s1).most

    go :
        (b : Bool)
        → (re.bit_in && has_in (s.g_events i).events) ≡ b
        → Single i s (callback_if b now i io1 s)
        → closes
            (callback_if
              (re.bit_out && has_out ((callback_if b now i io1 s).g_events i).events)
              now
              i
              io2
              (callback_if b now i io1 s)).log
          ≤ suc (closes s.log)
    go false e m = second s
    go true e m = elim m.same [
      | inl q ↦ omega (arith, second (callback_if true now i io1 s), q)
      | inr q ↦
          let s1 = callback_if true now i io1 s in
          let z : (re.bit_out && has_out (s1.g_events i).events) ≡ false =
            ap (λ x. re.bit_out && has_out x) q
            ∙ has_out-has_in re.bit_in re.bit_out (s.g_events i).events e in
          subst (λ b. closes (callback_if b now i io2 s1).log ≤ suc (closes s.log)) (sym z) m.most
    ]

-- The slot i holds the bytes bs of the descriptor fd, for senddata.
record Loaded (i fd : ℕ) (bs : List ℕ) (s : Reactor) : Type 0 where
  fd_kept : (s.g_events i).fd ≡ fd
  bytes : (s.g_events i).buf ≡ bs
  count : (s.g_events i).len ≡ length bs

eventdel-Loaded :
    (i fd : ℕ) (bs : List ℕ) (s : Reactor) → Loaded i fd bs s → Loaded i fd bs (eventdel i s)
unfolding eventdel ℕ_discrete
eventdel-Loaded i fd bs s v = elim (Bool-cases (s.g_events i).status) [
  | inl h ↦
      rw (h, eventdel)
        (record {
          fd_kept = ground (arith, v.fd_kept);
          bytes = ground (arith, v.bytes);
          count = ground (arith, v.count);
        })
  | inr h ↦ rw (h, eventdel) v
]

recv_data-Loaded :
    (now i b : ℕ) (bs : List ℕ) (s : Reactor)
    → Loaded i (s.g_events i).fd (b ∷ bs) (recv_data now i (got (b ∷ bs)) s)
unfolding recv_data eventadd eventset ℕ_discrete
recv_data-Loaded now i b bs s =
    let ev = s.g_events i in
    let w = with_event s i (record ev { buf = b ∷ bs; len = length (b ∷ bs) }) in
    let v : Loaded i ev.fd (b ∷ bs) (eventdel i w) =
      eventdel-Loaded i ev.fd (b ∷ bs) w
        (record { fd_kept = ground arith; bytes = ground arith; count = ground arith }) in
    record {
      fd_kept = ground arith;
      bytes = ground (arith, v.bytes);
      count = ground (arith, v.count);
    }

recv_data-log :
    (now i b : ℕ) (bs : List ℕ) (s : Reactor) → (recv_data now i (got (b ∷ bs)) s).log ≡ s.log
unfolding recv_data eventadd eventset
recv_data-log now i b bs s = eventdel-log i _

upper-take :
    (bs : List ℕ)
    → take (length bs) (map toupper (take (length bs) bs) ++ drop (length bs) bs) ≡ map toupper bs
upper-take [] = refl
upper-take (b ∷ bs) = ap (λ x. toupper b ∷ x) (upper-take bs)

-- What a slot has read and then been able to write is what the peer sent, in capitals, to the last
-- byte and no more; nothing else is written in between.
pub recv_data-send_data :
    (now later i b n : ℕ) (bs : List ℕ) (s : Reactor)
    → (send_data later i (value (suc n)) (recv_data now i (got (b ∷ bs)) s)).log
      ≡ wrote (s.g_events i).fd (map toupper (b ∷ bs)) ∷ s.log
unfolding send_data eventadd eventset
recv_data-send_data now later i b n bs s =
    let s2 = recv_data now i (got (b ∷ bs)) s in
    let v = recv_data-Loaded now i b bs s in
    let call : ℕ → ℕ → List ℕ → List Action =
      λ fd len buf. wrote fd (take len (map toupper (take len buf) ++ drop len buf)) ∷ s2.log in
    eventdel-log i _
    ∙ ap (λ fd. call fd (s2.g_events i).len (s2.g_events i).buf) v.fd_kept
    ∙ ap (λ l. call (s.g_events i).fd l (s2.g_events i).buf) v.count
    ∙ ap (call (s.g_events i).fd (length (b ∷ bs))) v.bytes
    ∙ ap₂ (λ x l. wrote (s.g_events i).fd x ∷ l) (upper-take (b ∷ bs)) (recv_data-log now i b bs s)
