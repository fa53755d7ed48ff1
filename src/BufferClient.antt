-- ===== src/BufferClient.antt =====
-- libevent/bufferevent-client.c: a client that passes its terminal on to a server, over libevent. The
-- library's objects are known here by whether they are still allocated.
pub mod Freed
mod Tests
use linux_c_study.Prelude.{
  ℕ, Bool, true, false, not, ◌||◌, Option, none, some, List, [], ◌∷◌, ◌++◌, if◌then◌else◌, length,
  take,
}
use linux_c_study.Kernel.{Answer, error, got}

-- The bufferevent and the event of the terminal: both are allocated once, and freed by whoever holds
-- them; `twice` once one has been freed when it was not allocated. `output` is what has been handed to
-- bufferevent_write.
pub record Client : Type 0 where
  pub bev : Bool
  pub ev_cmd : Bool
  pub twice : Bool
  pub output : List ℕ

-- bufferevent_free(bev) and event_free(ev)
abbrev pub bufferevent_free : Client → Client
bufferevent_free c = record c { bev = false; twice = c.twice || not c.bev }

abbrev pub event_free : Client → Client
event_free c = record c { ev_cmd = false; twice = c.twice || not c.ev_cmd }

-- exit(1), or the client goes on.
pub data Outcome : Type 0 where
  exits : ℕ → Outcome
  goes_on : Client → Outcome

-- The terminal can be read: read(fd, msg, 1024) and bufferevent_write.
unfoldable pub cmd_msg_cb : Answer → Client → Outcome
cmd_msg_cb (error e) c = exits 1
cmd_msg_cb (got msg) c = goes_on (record c { output = c.output ++ msg })

-- The server has sent: what bufferevent_read gives, of at most 1024 bytes, and the index at which
-- the closing zero is then written.
unfoldable pub server_msg_cb : List ℕ → ℕ
server_msg_cb input = length (take 1024 input)

-- The bits of `what`.
pub record What : Type 0 where
  pub eof : Bool
  pub error_ : Bool
  pub connected : Bool

-- Only BEV_EVENT_CONNECTED alone returns early.
unfoldable pub event_cb : What → Client → Client
event_cb w c =
    if w.eof
    then event_free (bufferevent_free c)
    else (if w.error_
        then event_free (bufferevent_free c)
        else (if w.connected then c else event_free (bufferevent_free c)))

-- What event_base_dispatch calls.
pub data Call : Type 0 where
  terminal : Answer → Call
  input : List ℕ → Call
  event : What → Call

unfoldable pub callback : Call → Client → Outcome
callback (terminal a) c = cmd_msg_cb a c
callback (input bs) c = goes_on c
callback (event w) c = goes_on (event_cb w c)

unfoldable pub dispatch : List Call → Client → Outcome
dispatch [] c = goes_on c
dispatch (call ∷ calls) c = elim (callback call c) [
  | exits n ↦ exits n
  | goes_on c' ↦ dispatch calls c'
]

-- main, from bufferevent_socket_new on: the callbacks, and then the two frees. `none`: exit(1).
unfoldable pub main : List Call → Option Client
main calls =
    elim (dispatch calls (record { bev = true; ev_cmd = true; twice = false; output = [] })) [
      | exits n ↦ none
      | goes_on c ↦ some (bufferevent_free (event_free c))
    ]
