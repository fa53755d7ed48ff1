-- ===== src/Wrap/Lines.antt =====
-- Readline: a line of the stream at a time.
use linux_c_study.Prelude.{
  ℕ, zero, suc, ◌+◌, ◌-◌, ◌≤◌, ◌<◌, ◌≡◌, refl, sym, ap, ◌∙◌, Option, some, List, [], ◌∷◌, ◌++◌,
  append_assoc, append-nil, arith, length, length-append,
}
use linux_c_study.Kernel.{World, Serves, served}
use linux_c_study.Prelude.Int.{pos}
use linux_c_study.Prelude.Bytes.{All}
use linux_c_study.Wrap.{Reader, Line, readline_round, readline_loop, readline}
use linux_c_study.Wrap.Buffer.{IsValid, unread}
use linux_c_study.Wrap.Progress.{my_read-GotChar}
use linux_c_study.Wrap.Stored.{NoNewline}

-- The reader has stored `bytes` and returned `n`, and `rest` is still to come.
pub record Reads (n : ℕ) (bytes rest : List ℕ) (o : Option Line) : Type 0 where
  pub line : Line
  pub returned : o ≡ some line
  pub result : line.result ≡ pos n
  pub stored : line.stored ≡ bytes
  pub valid : IsValid line.reader
  pub left : unread line.reader line.world ≡ rest

readline_loop-line :
    (rounds : ℕ) (out l rest : List ℕ) (r : Reader) (w : World)
    → IsValid r
    → All Serves w.turns
    → NoNewline l
    → length l < rounds
    → length l < served w.turns
    → unread r w ≡ l ++ (10 ∷ rest)
    → Reads
        (length out + length l + 1)
        (out ++ (l ++ (10 ∷ [])))
        rest
        (readline_loop rounds out r w)
unfolding readline_loop readline_round
readline_loop-line zero out l rest r w v sv nn lt en e = absurd (omega arith)
readline_loop-line (suc rounds) out [] rest r w v sv nn lt en e =
    let g = my_read-GotChar r w 10 rest v sv (omega arith) e in
    record {
      line = record {
        result = pos (length out + 1);
        stored = out ++ (10 ∷ []);
        reader = g.reader;
        world = g.world;
      };
      returned = rw (g.returned) refl;
      result = ap pos (omega arith);
      stored = refl;
      valid = g.valid;
      left = g.left;
    }
readline_loop-line (suc rounds) out (c ∷ l) rest r w v sv nn lt en e =
    let g = my_read-GotChar r w c (l ++ (10 ∷ rest)) v sv (omega arith) e in
    let rec =
      readline_loop-line rounds (out ++ (c ∷ [])) l rest g.reader g.world g.valid g.serves nn.1
        (omega arith) (omega (arith, g.fewer)) g.left in
    record {
      line = rec.line;
      returned = rw (g.returned, nn.0) rec.returned;
      result = rec.result ∙ ap pos (omega (arith, length-append out (c ∷ [])));
      stored = rec.stored ∙ append_assoc out (c ∷ []) (l ++ (10 ∷ []));
      valid = rec.valid;
      left = rec.left;
    }

readline_loop-full :
    (out l rest : List ℕ) (r : Reader) (w : World)
    → IsValid r
    → All Serves w.turns
    → NoNewline l
    → length l ≤ served w.turns
    → unread r w ≡ l ++ rest
    → Reads (length out + length l + 1) (out ++ l) rest (readline_loop (length l) out r w)
unfolding readline_loop readline_round
readline_loop-full out [] rest r w v sv nn en e = record {
  line = _;
  returned = refl;
  result = ap pos (omega arith);
  stored = sym (append-nil out);
  valid = v;
  left = e;
}
readline_loop-full out (c ∷ l) rest r w v sv nn en e =
    let g = my_read-GotChar r w c (l ++ rest) v sv (omega arith) e in
    let rec =
      readline_loop-full (out ++ (c ∷ [])) l rest g.reader g.world g.valid g.serves nn.1
        (omega (arith, g.fewer)) g.left in
    record {
      line = rec.line;
      returned = rw (g.returned, nn.0) rec.returned;
      result = rec.result ∙ ap pos (omega (arith, length-append out (c ∷ [])));
      stored = rec.stored ∙ append_assoc out (c ∷ []) l;
      valid = rec.valid;
      left = rec.left;
    }

-- From a descriptor that serves, with a call for each byte, a line that fits with its newline and
-- the closing zero is read whole: Readline returns its length with the newline, has stored just
-- that, and leaves the rest of the stream.
pub readline_lem :
    (maxlen : ℕ) (l rest : List ℕ) (r : Reader) (w : World)
    → IsValid r
    → All Serves w.turns
    → NoNewline l
    → length l + 2 ≤ maxlen
    → length l < served w.turns
    → unread r w ≡ l ++ (10 ∷ rest)
    → (line : Line) × (readline maxlen r w ≡ some line)
      × (line.result ≡ pos (length l + 1))
      × (line.stored ≡ l ++ (10 ∷ []))
      × (unread line.reader line.world ≡ rest)
unfolding readline
readline_lem maxlen l rest r w v sv nn fit en e =
    let d = readline_loop-line (maxlen - 1) [] l rest r w v sv nn (omega arith) en e in
    (d.line, d.returned, d.result ∙ ap pos (omega arith), d.stored, d.left)

-- From a descriptor that serves, with a call for each byte, for a line with no newline in its
-- first maxlen - 1 bytes: Readline stores those bytes and returns maxlen, one more than it has
-- stored.
pub readline_too_long :
    (maxlen : ℕ) (l rest : List ℕ) (r : Reader) (w : World)
    → IsValid r
    → All Serves w.turns
    → NoNewline l
    → length l + 1 ≡ maxlen
    → length l ≤ served w.turns
    → unread r w ≡ l ++ rest
    → (line : Line) × (readline maxlen r w ≡ some line)
      × (line.result ≡ pos (length line.stored + 1))
      × (line.stored ≡ l)
      × (unread line.reader line.world ≡ rest)
unfolding readline
readline_too_long maxlen l rest r w v sv nn fit en e =
    let d = readline_loop-full [] l rest r w v sv nn en e in
    (
      d.line,
      ap (λ k. readline_loop k [] r w) (omega arith) ∙ d.returned,
      d.result ∙ ap pos (omega (arith, ap length d.stored)),
      d.stored,
      d.left,
    )
