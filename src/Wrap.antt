-- ===== src/Wrap.antt =====
-- linux-network/wrap.c: the wrappers that retry interrupted calls, and the buffered line reader.
-- `none` says that the turns are used up: the last call has not returned.
pub mod Counted
pub mod Written
pub mod Buffer
pub mod Progress
pub mod Answered
pub mod Stored
pub mod Lines
pub mod Connect
mod Tests
use linux_c_study.Prelude.{
  ℕ, zero, suc, ◌+◌, ◌-◌, min, Option, none, some, List, [], ◌∷◌, ◌++◌, ◌==◌, if◌then◌else◌, length,
  get_or, take, drop,
}
use linux_c_study.Kernel.{Turn, fault, give, World, Answer, error, got, interrupted}
use linux_c_study.Prelude.Int.{ℤ, pos, negsuc}

-- Read: a read of at most `nbytes` bytes, again while it is interrupted.
unfoldable pub read : ℕ → List ℕ → List Turn → Option (Answer × World)
read nbytes pending [] = none
read nbytes pending (fault e ∷ turns) =
    let again = read nbytes pending turns in
    if interrupted e then again else some (error e, record { pending = pending; turns = turns })
read nbytes pending (give k ∷ turns) = some (
  got (take (min k nbytes) pending),
  record { pending = drop (min k nbytes) pending; turns = turns },
)

-- Write: of the bytes `ptr`, those that one call moved (`none` for a return of -1) and those left.
pub write : List ℕ → List Turn → Option (Option (List ℕ) × List ℕ × List Turn)
write ptr [] = none
write ptr (fault e ∷ turns) =
    let again = write ptr turns in if interrupted e then again else some (none, ptr, turns)
write ptr (give k ∷ turns) = some (some (take k ptr), drop k ptr, turns)

-- What a transfer of `n` bytes returns: `count` the value of `n - nleft`, or -1; `moved` the bytes
-- that went through it by then.
pub record Transfer : Type 0 where
  pub result : ℤ
  pub moved : List ℕ
  pub rest : World

-- The loop of Readn, with `nleft` bytes to read and `out` read so far.
pub readn_loop : ℕ → List ℕ → List ℕ → List Turn → Option Transfer
readn_loop nleft out pending [] =
    if nleft == 0
    then some (record {
      result = pos (length out);
      moved = out;
      rest = record { pending = pending; turns = [] };
    })
    else none
readn_loop nleft out pending (fault e ∷ turns) =
    let retried = readn_loop nleft out pending turns in
    if nleft == 0
    then some (record {
      result = pos (length out);
      moved = out;
      rest = record { pending = pending; turns = fault e ∷ turns };
    })
    else if interrupted e
    then retried
    else some (record {
      result = negsuc 0;
      moved = out;
      rest = record { pending = pending; turns = turns };
    })
readn_loop nleft out pending (give k ∷ turns) =
    let nread = take (min k nleft) pending in
    let more =
      readn_loop (nleft - length nread) (out ++ nread) (drop (min k nleft) pending) turns in
    if nleft == 0
    then some (record {
      result = pos (length out);
      moved = out;
      rest = record { pending = pending; turns = give k ∷ turns };
    })
    else if length nread == 0
    then some (record {
      result = pos (length out);
      moved = out;
      rest = record { pending = pending; turns = turns };
    })
    else more

pub readn : ℕ → World → Option Transfer
readn n w = readn_loop n [] w.pending w.turns

-- The loop of Writen: `left` the bytes to write, `out` those that the kernel has taken.
pub writen_loop : List ℕ → List ℕ → List Turn → Option (ℤ × List ℕ × List Turn)
writen_loop left out [] = if length left == 0 then some (pos (length out), out, []) else none
writen_loop left out (fault e ∷ turns) =
    let retried = writen_loop left out turns in
    if length left == 0
    then some (pos (length out), out, fault e ∷ turns)
    else if interrupted e
    then retried
    else some (negsuc 0, out, turns)
writen_loop left out (give k ∷ turns) =
    let more = writen_loop (drop k left) (out ++ take k left) turns in
    if length left == 0
    then some (pos (length out), out, give k ∷ turns)
    else if k == 0
    then some (negsuc 0, out, turns)
    else more

pub writen : List ℕ → List Turn → Option (ℤ × List ℕ × List Turn)
writen vptr turns = writen_loop vptr [] turns

-- The static variables of my_read. A `read_cnt` of -1, which a failed read leaves, is kept as 0:
-- the only test of it is `read_cnt <= 0`.
pub record Reader : Type 0 where
  pub read_buf : List ℕ
  pub read_ptr : ℕ
  pub read_cnt : ℕ

-- A return of 1 with the character, of 0, and of -1.
pub data CharResult : Type 0 where
  char : ℕ → CharResult
  finished : CharResult
  broken : CharResult

-- read_cnt--; *ptr = *read_ptr++; return 1
unfoldable pub next_char : Reader → World → CharResult × Reader × World
next_char r w = (
  char (get_or r.read_buf r.read_ptr 0),
  record r { read_ptr = r.read_ptr + 1; read_cnt = r.read_cnt - 1 },
  w,
)

-- What my_read does with the answer to its read.
unfoldable pub refilled : Reader → Answer → World → CharResult × Reader × World
refilled r (error e) w = (broken, record r { read_cnt = 0 }, w)
refilled r (got []) w = (finished, record r { read_cnt = 0 }, w)
refilled r (got (c ∷ cs)) w =
    next_char (record { read_buf = c ∷ cs; read_ptr = 0; read_cnt = length (c ∷ cs) }) w

unfoldable pub after_read : Reader → Option (Answer × World) → Option (CharResult × Reader × World)
after_read r none = none
after_read r (some (a, w)) = some (refilled r a w)

unfoldable pub my_read : Reader → World → Option (CharResult × Reader × World)
my_read r w =
    if r.read_cnt == 0 then after_read r (read 100 w.pending w.turns) else some (next_char r w)

-- What a line reader returns, the bytes that it stored (it writes the closing zero behind them),
-- and the state that it leaves.
pub record Line : Type 0 where
  pub result : ℤ
  pub stored : List ℕ
  pub reader : Reader
  pub world : World

-- One round of Readline, by what my_read returned; `more` is the rest of the loop.
pub readline_round :
    List ℕ
    → (List ℕ → Reader → World → Option Line)
    → Option (CharResult × Reader × World)
    → Option Line
readline_round out more none = none
readline_round out more (some (char c, r, w)) =
    if c == 10
    then some
        (record { result = pos (length out + 1); stored = out ++ (c ∷ []); reader = r; world = w })
    else more (out ++ (c ∷ [])) r w
readline_round out more (some (finished, r, w)) =
    some (record { result = pos (length out); stored = out; reader = r; world = w })
readline_round out more (some (broken, r, w)) =
    some (record { result = negsuc 0; stored = out; reader = r; world = w })

-- The loop of Readline with `rounds` values of n left below maxlen and `out` stored: n - 1 is the
-- number of stored bytes.
pub readline_loop : ℕ → List ℕ → Reader → World → Option Line
readline_loop zero out r w =
    some (record { result = pos (length out + 1); stored = out; reader = r; world = w })
readline_loop (suc rounds) out r w =
    readline_round out (λ o r' w'. readline_loop rounds o r' w') (my_read r w)

pub readline : ℕ → Reader → World → Option Line
readline maxlen r w = readline_loop (maxlen - 1) [] r w
