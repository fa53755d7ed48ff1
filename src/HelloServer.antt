-- ===== src/HelloServer.antt =====
-- libevent/hellow-libevent.c: the server over bufferevents that answers in capitals. The bufferevents
-- are libevent's, here an interface with the laws that its documentation gives.
pub mod Echo
mod Tests
use linux_c_study.Prelude.{
  ℕ, ◌≤◌, ◌≡◌, ◌≢◌, ◌⊎◌, inl, inr, Bool, true, false, Option, none, some, List, [], ◌∷◌, ◌++◌, map,
  arith, ℕ_discrete, length,
}
use mathlib.Core.Logic.{ite}
use linux_c_study.SelectServer.{toupper}

-- A bufferevent has an input and an output. `read` and `write` are bufferevent_read and
-- bufferevent_write; `arrive` and `flush` are what the event loop does itself: bytes of the socket go
-- to the end of the input, and bytes of the output go to the socket.
pub record Bufferevents : Type 1 where
  pub Bev : Type 0
  pub new : Bev
  pub input : Bev → List ℕ
  pub output : Bev → List ℕ
  pub read : ℕ → Bev → List ℕ × Bev
  pub write : List ℕ → Bev → Bev
  pub arrive : List ℕ → Bev → Bev
  pub flush : ℕ → Bev → List ℕ × Bev
  pub input-new : input new ≡ []
  pub output-new : output new ≡ []
  pub read_some : (n : ℕ) (b : Bev) → length ((read n b).0) ≤ n
  pub read-input : (n : ℕ) (b : Bev) → (read n b).0 ++ input ((read n b).1) ≡ input b
  pub read-output : (n : ℕ) (b : Bev) → output ((read n b).1) ≡ output b
  pub write-input : (bs : List ℕ) (b : Bev) → input (write bs b) ≡ input b
  pub write-output : (bs : List ℕ) (b : Bev) → output (write bs b) ≡ output b ++ bs
  pub arrive-input : (bs : List ℕ) (b : Bev) → input (arrive bs b) ≡ input b ++ bs
  pub arrive-output : (bs : List ℕ) (b : Bev) → output (arrive bs b) ≡ output b
  pub flush-input : (k : ℕ) (b : Bev) → input ((flush k b).1) ≡ input b
  pub flush-output : (k : ℕ) (b : Bev) → (flush k b).0 ++ output ((flush k b).1) ≡ output b

-- What happens on the sockets.
pub data Action : Type 0 where
  opened : ℕ → Action
  came : ℕ → List ℕ → Action
  sent : ℕ → List ℕ → Action
  freed : ℕ → Action

-- event_base_dispatch goes on, goes on for two seconds after event_base_loopexit, or has ended by
-- event_base_loopbreak.
pub data Loop : Type 0 where
  running leaving broken : Loop

inr-inj {ℓ} : {A B : Type ℓ} {a b : B} → ◌≡◌ {A = A ⊎ B} (inr a) (inr b) → a ≡ b
inr-inj e = ground arith

module _ (lib : Bufferevents) where
  open lib use {Bev, new, read, write, arrive, flush}

  -- The bufferevents that are allocated, by their descriptor, and what has happened, the last first.
  pub record Server : Type 0 where
    pub conn : ℕ → Option Bev
    pub loop : Loop
    pub log : List Action

  abbrev pub put : (ℕ → Option Bev) → ℕ → Option Bev → ℕ → Option Bev
  put conn fd b g = ite (ℕ_discrete fd g) b (conn g)

  -- listener_cb: whether bufferevent_socket_new gives an object.
  unfoldable pub listener_cb : ℕ → Bool → Server → Server
  listener_cb fd false s = record s { loop = broken }
  listener_cb fd true s = record s { conn = put s.conn fd (some new); log = opened fd ∷ s.log }

  -- conn_readcb
  unfoldable pub conn_readcb : Bev → Bev
  conn_readcb bev = let (buf, bev') = read 1024 bev in write (map toupper buf) bev'

  -- conn_writecb prints when the output is empty, and does nothing else.
  unfoldable pub conn_writecb : Bev → Bev
  conn_writecb bev = bev

  -- conn_eventcb: the end of the stream, an error and anything else free the bufferevent, which closes
  -- the descriptor.
  unfoldable pub conn_eventcb : ℕ → Server → Server
  conn_eventcb fd s = record s { conn = put s.conn fd none; log = freed fd ∷ s.log }

  -- signal_cb
  unfoldable pub signal_cb : Server → Server
  signal_cb s = record s { loop = leaving }

  -- What event_base_dispatch does next. accept gives a descriptor that is not in use, and no callback
  -- comes for a bufferevent that has been freed.
  pub data Step (s : Server) : Server → Type 0 where
    connects :
        (fd : ℕ) (created : Bool)
        → s.loop ≢ broken
        → s.conn fd ≡ none
        → Step s (listener_cb fd created s)
    readable :
        (fd : ℕ) (bev : Bev) (bs : List ℕ)
        → s.loop ≢ broken
        → s.conn fd ≡ some bev
        → Step s (record s {
          conn = put s.conn fd (some (conn_readcb (arrive bs bev)));
          log = came fd bs ∷ s.log;
        })
    writable :
        (fd : ℕ) (bev : Bev) (k : ℕ)
        → s.loop ≢ broken
        → s.conn fd ≡ some bev
        → Step s (record s {
          conn = put s.conn fd (some (conn_writecb (flush k bev).1));
          log = sent fd (flush k bev).0 ∷ s.log;
        })
    event :
        (fd : ℕ) (bev : Bev) → s.loop ≢ broken → s.conn fd ≡ some bev → Step s (conn_eventcb fd s)
    interrupt : s.loop ≢ broken → Step s (signal_cb s)

  pub data Reach (s : Server) : Server → Type 0 where
    here : Reach s s
    next : {t u : Server} → Reach s t → Step t u → Reach s u

  -- main: whether event_base_new, evconnlistener_new_bind, evsignal_new and event_add succeed. The
  -- answer is the exit code, or the server with which event_base_dispatch starts.
  abbrev pub initial : Server
  initial = record { conn = λ fd. none; loop = running; log = [] }

  unfoldable pub main : Bool → Bool → Bool → Bool → ℕ ⊎ Server
  main false listener signal_event add = inl 1
  main true false signal_event add = inl 1
  main true true false add = inl 1
  main true true true false = inl 1
  main true true true true = inr initial

  pub main-initial :
      (base listener signal_event add : Bool) {s : Server}
      → main base listener signal_event add ≡ inr s
      → initial ≡ s
  unfolding main
  main-initial false listener signal_event add m = absurd (ground arith)
  main-initial true false signal_event add m = absurd (ground arith)
  main-initial true true false add m = absurd (ground arith)
  main-initial true true true false m = absurd (ground arith)
  main-initial true true true true m = inr-inj m
