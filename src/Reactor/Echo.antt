-- ===== src/Reactor/Echo.antt =====
-- A request to epoll-advance.c and its reply, with other events and rounds in between.
use linux_c_study.Prelude.{
  ℕ, zero, suc, ◌+◌, ◌<◌, ◌≡◌, refl, sym, ap, ◌∙◌, ◌≢◌, Bool, true, false, ◌||◌, List, [], ◌∷◌,
  arith, if◌then◌else◌, length,
}
use linux_c_study.Prelude.Bytes.{All}
use linux_c_study.Kernel.{value, got}
use linux_c_study.Reactor.{
  MyEvent, Callback, recvdata, senddata, epollin, epollout, Reactor, wrote, eventset, eventdel,
  eventadd, Io, recv_data, send_data, whole_buf, run_callback, Revents, first_test, second_test,
  dispatch, check, wrapped, sweep, Event, dispatch_all, turn,
}
use linux_c_study.Reactor.Apart.{run_callback-other, check-other}
use mathlib.Core.Path.{subst}

-- `while(1)`, for the times of its rounds and the events that epoll_wait reports in them.
unfoldable pub rounds : List (ℕ × List Event) → ℕ → Reactor → ℕ × Reactor
rounds [] checkpos s = (checkpos, s)
rounds ((now, es) ∷ more) checkpos s =
    let (checkpos', s') = turn now es checkpos s in rounds more checkpos' s'

-- Both results of a test have P.
pub if_both : (P : Reactor → Type 0) (b : Bool) {x y : Reactor} → P x → P y → P (if b then x else y)
if_both P true p q = p
if_both P false p q = q

-- An event of another slot.
abbrev pub Elsewhere : ℕ → Event → Type 0
Elsewhere i e = e.slot ≢ i

-- A round at a time when the slot has not been idle for sixty seconds, with events of other slots.
abbrev pub Aside : ℕ → MyEvent → ℕ × List Event → Type 0
Aside i ev (now, es) = (now < ev.last_active + 60) × All (Elsewhere i) es

module _ (i : ℕ) (ev : MyEvent) (on : ev.status ≡ true) where
  abbrev Same : Reactor → Type 0
  Same s = s.g_events i ≡ ev

  callback-Same :
      (now j : ℕ) (io : Io) (c : Callback) (s : Reactor)
      → j ≢ i
      → Same s
      → Same (run_callback now j io c s)
  callback-Same now j io c s ne e =
      run_callback-other i s now j io c ne (ap (λ (m : MyEvent). m.status) e ∙ on) ∙ e

  dispatch-Same :
      (now j : ℕ) (re : Revents) (io1 io2 : Io) (s : Reactor)
      → j ≢ i
      → Same s
      → Same (dispatch now j re io1 io2 s)
  unfolding dispatch
  dispatch-Same now j re io1 io2 s ne e =
      let s1 =
        if first_test re (s.g_events j)
        then run_callback now j io1 (s.g_events j).call_back s
        else s in
      let kept : Same s1 =
        if_both Same (first_test re (s.g_events j))
          (callback-Same now j io1 (s.g_events j).call_back s ne e) e in
      if_both Same (second_test re (s1.g_events j))
        (callback-Same now j io2 (s1.g_events j).call_back s1 ne kept) kept

  pub dispatch_all-Same :
      (now : ℕ) (es : List Event) (s : Reactor)
      → All (Elsewhere i) es
      → Same s
      → Same (dispatch_all now es s)
  unfolding dispatch_all
  dispatch_all-Same now [] s h e = e
  dispatch_all-Same now (x ∷ es) s h e =
      dispatch_all-Same now es (dispatch now x.slot x.revents x.first x.second s) h.1
        (dispatch-Same now x.slot x.revents x.first x.second s h.0 e)

  sweep-Same :
      (n now pos : ℕ) (s : Reactor)
      → now < ev.last_active + 60
      → Same s
      → Same (sweep n now pos s).1
  unfolding sweep
  sweep-Same zero now pos s recent e = e
  sweep-Same (suc n) now pos s recent e =
      sweep-Same n now (wrapped pos + 1) (check now (wrapped pos) s) recent (
        check-other i s now (wrapped pos)
          (subst (λ (m : MyEvent). now < m.last_active + 60) (sym e) recent)
        ∙ e)

  rounds-Same :
      (more : List (ℕ × List Event)) (pos : ℕ) (s : Reactor)
      → All (Aside i ev) more
      → Same s
      → Same (rounds more pos s).1
  unfolding rounds turn
  rounds-Same [] pos s h e = e
  rounds-Same ((now, es) ∷ more) pos s h e =
      let swept = sweep 100 now pos s in
      rounds-Same more swept.0 (dispatch_all now es swept.1) h.1
        (dispatch_all-Same now es swept.1 h.0.1 (sweep-Same 100 now pos s h.0.0 e))

-- What a read leaves in its slot.
abbrev pub to_reply : ℕ → MyEvent → List ℕ → MyEvent
to_reply now ev bs = record ev {
  events = epollout;
  call_back = senddata;
  status = true;
  buf = bs;
  len = length bs;
  last_active = now;
}

module _ (i : ℕ) (s : Reactor) where
  recv_data-to_reply :
      (now b : ℕ) (bs : List ℕ)
      → (recv_data now i (got (b ∷ bs)) s).g_events i ≡ to_reply now (s.g_events i) (b ∷ bs)
  unfolding recv_data eventadd eventset eventdel
  recv_data-to_reply now b bs = ground arith

  send_data-log :
      (now n : ℕ)
      → (send_data now i (value (suc n)) s).log
        ≡ wrote (s.g_events i).fd (whole_buf (s.g_events i).buf) ∷ s.log
  unfolding send_data eventadd eventset eventdel
  send_data-log now n = ground arith

  send_data-epollin :
      (now n : ℕ) → ((send_data now i (value (suc n)) s).g_events i).events ≡ epollin
  unfolding send_data eventadd eventset eventdel
  send_data-epollin now n = ground arith

module _ (i : ℕ) (re : Revents) (io1 io2 : Io) (s : Reactor) where
  -- Only EPOLLIN is reported, and the slot waits for it.
  dispatch-reads :
      (now b : ℕ) (bs : List ℕ)
      → re.bit_in ≡ true
      → re.bit_out ≡ false
      → (s.g_events i).events ≡ epollin
      → (s.g_events i).call_back ≡ recvdata
      → io1.received ≡ got (b ∷ bs)
      → (dispatch now i re io1 io2 s).g_events i ≡ to_reply now (s.g_events i) (b ∷ bs)
  unfolding dispatch first_test second_test run_callback
  dispatch-reads now b bs yes_in no_out waits c r =
      rw (yes_in, no_out, waits, c, r) (recv_data-to_reply i s now b bs)

  -- EPOLLOUT is reported, and the slot waits for it.
  dispatch-replies :
      (now n : ℕ)
      → re.bit_out ≡ true
      → (s.g_events i).events ≡ epollout
      → (s.g_events i).call_back ≡ senddata
      → io1.written ≡ value (suc n)
      → (dispatch now i re io1 io2 s).log
        ≡ wrote (s.g_events i).fd (whole_buf (s.g_events i).buf) ∷ s.log
  unfolding dispatch first_test second_test run_callback
  dispatch-replies now n out waits c w =
      let any : (re.bit_in || (re.bit_out || re.other)) ≡ true = ground arith in
      rw (any, out, waits, c, w, run_callback, send_data-epollin i s now n)
        (send_data-log i s now n)

-- epoll-advance.c: after a slot that waits to read has read something, of at least a byte, and when
-- epoll_wait later reports that the slot can be written and the call of write does not fail, then this
-- event makes one call, which gives write the descriptor of the slot and the whole buffer, with what
-- was read in front and zeros behind it; whatever connections, requests and replies of other slots the
-- rounds in between handle, if none comes sixty seconds after the read.
pub dispatch-echoes :
    (i now b : ℕ) (bs : List ℕ) (re1 re2 : Revents) (io1 io2 io3 io4 : Io)
    (more : List (ℕ × List Event)) (checkpos later n : ℕ) (s : Reactor)
    → (s.g_events i).events ≡ epollin
    → (s.g_events i).call_back ≡ recvdata
    → re1.bit_in ≡ true
    → re1.bit_out ≡ false
    → io1.received ≡ got (b ∷ bs)
    → All (Aside i (to_reply now (s.g_events i) (b ∷ bs))) more
    → re2.bit_out ≡ true
    → io3.written ≡ value (suc n)
    → (dispatch later i re2 io3 io4 (rounds more checkpos (dispatch now i re1 io1 io2 s)).1).log
      ≡ wrote (s.g_events i).fd (whole_buf (b ∷ bs))
        ∷ (rounds more checkpos (dispatch now i re1 io1 io2 s)).1.log
dispatch-echoes i now b bs re1 re2 io1 io2 io3 io4 more checkpos later n s waits c yes_in no_out r h
      out w =
    let ev = to_reply now (s.g_events i) (b ∷ bs) in
    let s1 = dispatch now i re1 io1 io2 s in
    let read = dispatch-reads i re1 io1 io2 s now b bs yes_in no_out waits c r in
    let s2 = (rounds more checkpos s1).1 in
    let kept : s2.g_events i ≡ ev = rounds-Same i ev refl more checkpos s1 h read in
    dispatch-replies i re2 io3 io4 s2 later n out (ap (λ (m : MyEvent). m.events) kept)
      (ap (λ (m : MyEvent). m.call_back) kept) w
    ∙ ap (λ (m : MyEvent). wrote m.fd (whole_buf m.buf) ∷ s2.log) kept
