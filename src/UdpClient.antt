-- ===== src/UdpClient.antt =====
-- linux-UDPandThreadPool/UdpClient.c, over datagrams that arrive.
pub mod Clients
mod Tests
use linux_c_study.Prelude.{
  ℕ, Option, none, some, List, [], ◌∷◌, ◌++◌, ◌==◌, if◌then◌else◌, length, take, replicate,
}
use linux_c_study.Kernel.{Answer, error, got}
use linux_c_study.Prelude.Int.{ℤ, pos, negsuc}

-- buf of 1024 bytes: what a call has written to it, and else zeros.
abbrev pub whole_buf : List ℕ → List ℕ
whole_buf bs = take 1024 (bs ++ replicate 1024 0)

-- sendto(ftd,buf,sizeof(buf),...), after read(STDIN_FILENO, buf, sizeof(buf)).
unfoldable pub request : Answer → List ℕ
request (got bs) = whole_buf bs
request (error e) = whole_buf []

-- The %s of printf: the bytes before the first zero. `none`: there is no zero, and printf reads on
-- behind the array.
pub text_of : List ℕ → Option (List ℕ)
text_of [] = none
text_of (c ∷ bs) =
    let rest = text_of bs in
    if c == 0 then some [] else elim rest [ none ↦ none | some text ↦ some (c ∷ text) ]

-- What printf prints for `readres` and `buf`.
pub record Printed : Type 0 where
  pub readres : ℤ
  pub text : Option (List ℕ)

-- recvfrom(ftd,buf,readres,...) with a datagram, for what the read has answered: it gives at most
-- readres bytes of it. After a failed read readres is -1, which as a size is no bound.
unfoldable pub receive : Answer → Answer → Printed
receive line (error e) = record { readres = negsuc 0; text = text_of (whole_buf []) }
receive (got bs) (got datagram) =
    let part = take (length bs) datagram in
    record { readres = pos (length part); text = text_of (whole_buf part) }
receive (error e) (got datagram) = record {
  readres = pos (length datagram);
  text = text_of (whole_buf datagram);
}

-- The loop, for what read(STDIN_FILENO,...) answers: the datagrams that it sends, as long as each is
-- answered.
unfoldable pub requests : List Answer → List (List ℕ)
requests [] = []
requests (line ∷ lines) = request line ∷ requests lines

-- What it prints for the answers of recvfrom. When there are no more, it waits.
unfoldable pub printed : List Answer → List Answer → List Printed
printed [] answers = []
printed (line ∷ lines) [] = []
printed (line ∷ lines) (answer ∷ answers) = receive line answer ∷ printed lines answers
