-- ===== src/BufferClient/Tests.antt =====
-- libevent/bufferevent-client.c: a line from the terminal, an answer, and the end.
use linux_c_study.Prelude.{◌≡◌, refl, true, false, some, List, [], ◌∷◌, ◌++◌, replicate}
use linux_c_study.Kernel.{got}
use linux_c_study.BufferClient.{
  Client, cmd_msg_cb, server_msg_cb, What, event_cb, Call, terminal, input, event, callback,
  dispatch, main,
}

abbrev conversation : List Call
conversation =
    event (record { eof = false; error_ = false; connected = true })
    ∷ terminal (got (104 ∷ 10 ∷ []))
    ∷ input (72 ∷ 10 ∷ [])
    ∷ []

abbrev at_end : What
at_end = record { eof = true; error_ = false; connected = false }

abbrev left : Client
left = record { bev = false; ev_cmd = false; twice = true; output = 104 ∷ 10 ∷ [] }

conversation-main : main (conversation ++ event at_end ∷ []) ≡ some left
unfolding main dispatch callback event_cb cmd_msg_cb
conversation-main = refl

-- The closing zero of a full buffer is written behind it.
server_msg_cb-full : server_msg_cb (replicate 1500 65) ≡ 1024
unfolding server_msg_cb
server_msg_cb-full = refl
