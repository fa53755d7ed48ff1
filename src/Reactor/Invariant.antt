-- ===== src/Reactor/Invariant.antt =====
-- The table and the tree agree, and every callback and every check keeps them so.
use linux_c_study.Prelude.{
  ℕ, zero, suc, ◌+◌, ◌<◌, ◌≡◌, refl, Bool, true, false, Option, none, some, List, arith,
}
use linux_c_study.Reactor.{
  Action, Interest, epollin, epollout, Callback, acceptconn, recvdata, senddata, MyEvent, Reactor,
  put, ctl_add, epoll_ctl, with_event, eventset, eventdel, eventadd, find_free,
}

-- The callback is one for these events.
abbrev pub matches : Interest → Callback → Bool
matches epollin recvdata = true
matches epollin acceptconn = true
matches epollout senddata = true
matches _ _ = false

-- A slot in use has its descriptor in the tree, for its events and with its own address, and the
-- callback for them; and the tree has no other entries.
pub record IsValid (s : Reactor) : Type 0 where
  pub in_tree :
      (i : ℕ)
      → (s.g_events i).status ≡ true
      → s.tree (s.g_events i).fd ≡ some ((s.g_events i).events, i)
  pub matching :
      (i : ℕ)
      → (s.g_events i).status ≡ true
      → matches (s.g_events i).events (s.g_events i).call_back ≡ true
  pub in_use : (fd i : ℕ) (ev : Interest) → s.tree fd ≡ some (ev, i) → (s.g_events i).status ≡ true
  pub own_fd : (fd i : ℕ) (ev : Interest) → s.tree fd ≡ some (ev, i) → (s.g_events i).fd ≡ fd

-- A slot that is not in use may be overwritten, if it stays so.
idle-IsValid :
    (s : Reactor) (i : ℕ) (ev : MyEvent)
    → IsValid s
    → (s.g_events i).status ≡ false
    → ev.status ≡ false
    → IsValid (with_event s i ev)
idle-IsValid s i ev v off off' = record {
  in_tree = λ j on. ground (arith, v.in_tree j);
  matching = λ j on. ground (arith, v.matching j);
  in_use = λ fd j e t. ground (arith, v.in_use fd j e);
  own_fd = λ fd j e t. ground (arith, v.in_use fd j e, v.own_fd fd j e);
}

-- A slot goes out of use, and its descriptor off the tree.
pub release-IsValid :
    (s : Reactor) (i : ℕ) (ev : MyEvent) (tree : ℕ → Option (Interest × ℕ)) (log : List Action)
    → IsValid s
    → (s.g_events i).status ≡ true
    → ev.status ≡ false
    → ((fd : ℕ) → tree fd ≡ put s.tree (s.g_events i).fd none fd)
    → IsValid (record { g_events = put s.g_events i ev; tree = tree; log = log })
release-IsValid s i ev tree log v on off t = record {
  in_tree = λ j h. ground (arith, t (s.g_events j).fd, v.in_tree j, v.in_tree i);
  matching = λ j h. ground (arith, v.matching j);
  in_use = λ fd j e h. ground (arith, t fd, v.in_use fd j e, v.own_fd fd j e);
  own_fd = λ fd j e h. ground (arith, t fd, v.in_use fd j e, v.own_fd fd j e);
}

-- A slot comes into use, with a descriptor that is not in the tree.
claim-IsValid :
    (s : Reactor) (i : ℕ) (ev : MyEvent)
    → IsValid s
    → (s.g_events i).status ≡ false
    → ev.status ≡ true
    → matches ev.events ev.call_back ≡ true
    → s.tree ev.fd ≡ none
    → IsValid
        (record s { g_events = put s.g_events i ev; tree = put s.tree ev.fd (some (ev.events, i)) })
claim-IsValid s i ev v off on m fresh = record {
  in_tree = λ j h. ground (arith, v.in_tree j);
  matching = λ j h. ground (arith, v.matching j);
  in_use = λ fd j e h. ground (arith, v.in_use fd j e);
  own_fd = λ fd j e h. ground (arith, v.in_use fd j e, v.own_fd fd j e);
}

-- The fields that the tree does not see may change.
pub touch-IsValid :
    (s : Reactor) (i : ℕ) (buf : List ℕ) (len : ℕ)
    → IsValid s
    → IsValid (with_event s i (record (s.g_events i) { buf = buf; len = len }))
touch-IsValid s i buf len v = record {
  in_tree = λ j h. ground (arith, v.in_tree j);
  matching = λ j h. ground (arith, v.matching j);
  in_use = λ fd j e h. ground (arith, v.in_use fd j e);
  own_fd = λ fd j e h. ground (arith, v.own_fd fd j e);
}

pub log-IsValid : (s : Reactor) (log : List Action) → IsValid s → IsValid (record s { log = log })
log-IsValid s log v = record {
  in_tree = v.in_tree;
  matching = v.matching;
  in_use = v.in_use;
  own_fd = v.own_fd;
}

-- What eventdel leaves of a slot that was in use.
pub record Deleted (s : Reactor) (i : ℕ) (s' : Reactor) : Type 0 where
  pub valid : IsValid s'
  pub off : (s'.g_events i).status ≡ false
  pub gone : s'.tree (s.g_events i).fd ≡ none

pub eventdel-Deleted :
    (s : Reactor) (i : ℕ) → IsValid s → (s.g_events i).status ≡ true → Deleted s i (eventdel i s)
unfolding eventdel
eventdel-Deleted s i v on = rw on (record {
  valid = release-IsValid s i _ _ s.log v on refl (λ fd. refl);
  off = ground arith;
  gone = ground arith;
})

epoll_ctl-add :
    (fd : ℕ) (ev : Interest) (i : ℕ) (tree : ℕ → Option (Interest × ℕ))
    → tree fd ≡ none
    → epoll_ctl ctl_add fd ev i tree ≡ put tree fd (some (ev, i))
unfolding epoll_ctl
epoll_ctl-add fd ev i tree e = rw (e, epoll_ctl)

eventadd-IsValid :
    (ev : Interest) (i : ℕ) (s : Reactor)
    → IsValid s
    → (s.g_events i).status ≡ false
    → s.tree (s.g_events i).fd ≡ none
    → matches ev (s.g_events i).call_back ≡ true
    → IsValid (eventadd ev i s)
unfolding eventadd
eventadd-IsValid ev i s v off fresh m =
    rw (off, epoll_ctl-add (s.g_events i).fd ev i s.tree fresh)
      (claim-IsValid s i (record (s.g_events i) { events = ev; status = true }) v off refl m fresh)

-- A slot that is not in use is set, and put on the tree with a descriptor that is not there.
pub rearm-IsValid :
    (now i fd : ℕ) (call_back : Callback) (ev : Interest) (s : Reactor)
    → IsValid s
    → (s.g_events i).status ≡ false
    → s.tree fd ≡ none
    → matches ev call_back ≡ true
    → IsValid (eventadd ev i (eventset now i fd call_back s))
unfolding eventset
rearm-IsValid now i fd call_back ev s v off fresh m =
    eventadd-IsValid ev i _ (idle-IsValid s i _ v off refl) (ground arith) (ground arith)
      (ground arith)

pub find_free-status :
    (g : ℕ → MyEvent) (rounds i : ℕ) {j : ℕ}
    → find_free g rounds i ≡ some j
    → ((g j).status ≡ false) × (j < i + rounds)
unfolding find_free
find_free-status g zero i e = cc
find_free-status g (suc rounds) i {j} e = ground (arith, find_free-status g rounds (i + 1) {j = j})
