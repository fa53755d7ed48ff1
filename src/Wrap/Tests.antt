-- ===== src/Wrap/Tests.antt =====
-- The wrappers on concrete streams and answers.
use linux_c_study.Prelude.{ℕ, ◌+◌, ◌≡◌, refl, Option, some, List, [], ◌∷◌, arith, length}
use linux_c_study.Kernel.{eintr, Turn, fault, give, SysRet, failed, value, World}
use linux_c_study.Prelude.Bytes.{codes}
use linux_c_study.Prelude.Int.{pos}
use linux_c_study.Wrap.{Reader, Transfer, readn_loop, readn, writen, Line, readline}
use linux_c_study.Wrap.Buffer.{unread}
use linux_c_study.Wrap.Counted.{readn_lem}
use linux_c_study.Wrap.Written.{writen_lem}
use linux_c_study.Wrap.Lines.{readline_lem, readline_too_long}
use linux_c_study.Wrap.Connect.{returned, exited, SockAddr, connect, listen, close}

-- Seven bytes that come two at a time, with an interruption.
abbrev chunks : World
chunks = record {
  pending = codes "ab\ncdef";
  turns = give 2 ∷ fault eintr ∷ give 2 ∷ give 2 ∷ give 2 ∷ give 2 ∷ give 2 ∷ give 2 ∷ give 2 ∷ [];
}

abbrev no_reader : Reader
no_reader = record { read_buf = []; read_ptr = 0; read_cnt = 0 }

abbrev five_read : Transfer
five_read = record {
  result = pos 5;
  moved = codes "ab\ncd";
  rest = record { pending = codes "ef"; turns = give 2 ∷ give 2 ∷ give 2 ∷ give 2 ∷ give 2 ∷ [] };
}

readn-chunks : readn 5 chunks ≡ some five_read
unfolding readn readn_loop
readn-chunks = refl

readn_lem_example :
    (t : Transfer) × (readn 5 chunks ≡ some t)
    × (t.result ≡ pos (length t.moved))
    × (t.moved ≡ codes "ab\ncd")
    × (t.rest.pending ≡ codes "ef")
readn_lem_example = readn_lem 5 chunks (ground arith) (omega arith)

writen_lem_example :
    (turns : List Turn) × (writen (codes "ab") (give 1 ∷ fault eintr ∷ give 9 ∷ give 1 ∷ [])
      ≡ some (pos 2, codes "ab", turns))
writen_lem_example =
    writen_lem (codes "ab") (give 1 ∷ fault eintr ∷ give 9 ∷ give 1 ∷ []) (ground arith)
      (omega arith)

abbrev first_line : Line
first_line = record {
  result = pos 3;
  stored = codes "ab\n";
  reader = record { read_buf = codes "\nc"; read_ptr = 1; read_cnt = 1 };
  world = record {
    pending = codes "def";
    turns = give 2 ∷ give 2 ∷ give 2 ∷ give 2 ∷ give 2 ∷ give 2 ∷ [];
  };
}

readline_lem_example :
    (line : Line) × (readline 80 no_reader chunks ≡ some line)
    × (line.result ≡ pos 3)
    × (line.stored ≡ codes "ab\n")
    × (unread line.reader line.world ≡ codes "cdef")
unfolding unread
readline_lem_example =
    readline_lem 80 (codes "ab") (codes "cdef") no_reader chunks (omega arith) (ground arith)
      (ground arith) (omega arith) (omega arith) refl

readline_too_long_example :
    (line : Line) × (readline 3 no_reader chunks ≡ some line)
    × (line.result ≡ pos (length line.stored + 1))
    × (line.stored ≡ codes "ab")
    × (unread line.reader line.world ≡ codes "\ncdef")
unfolding unread
readline_too_long_example =
    readline_too_long 3 (codes "ab") (codes "\ncdef") no_reader chunks (omega arith) (ground arith)
      (ground arith) refl (omega arith) refl

abbrev loopback : List ℕ → Option ℕ
loopback ip = some 16777343

abbrev bound : SockAddr → SysRet
bound a = value 0

-- Connect, Listen and Close end the process on an error, an interruption too.
wrappers :
    (connect (failed eintr) ≡ exited 255)
    × (listen (failed eintr) ≡ exited 255)
    × (close (value 0) ≡ returned 0)
unfolding connect listen close
wrappers = (refl, refl, refl)
