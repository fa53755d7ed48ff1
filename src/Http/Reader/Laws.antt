-- ===== src/Http/Reader/Laws.antt =====
-- readLine: what it reads of the stream, and where it leaves its buffer.
use linux_c_study.Prelude.{
  ℕ, zero, suc, ◌+◌, ◌≤◌, ◌<◌, ◌≡◌, refl, sym, ap, ◌∙◌, inl, inr, Option, none, some, List, [], ◌∷◌,
  ◌++◌, append_assoc, append-nil, arith, ◌==◌, Bool-cases, length, length-append,
}
use linux_c_study.Kernel.{World, Serves, served}
use linux_c_study.Prelude.Int.{pos}
use linux_c_study.Prelude.Bytes.{All}
use linux_c_study.Wrap.{Reader, CharResult, char, finished, broken, Line}
use linux_c_study.Wrap.Buffer.{IsValid, unread, Next?, my_read-Next}
use linux_c_study.Wrap.Progress.{my_read-GotChar}
use linux_c_study.Wrap.Lines.{Reads}
use linux_c_study.Wrap.Stored.{NoNewline, Stored?, Stored-snoc}
use linux_c_study.Http.Reader.{char_read, read_line_round, read_line_loop, read_line}

read_line_round-Stored :
    (out : List ℕ) (r : Reader) (w : World) (bound : ℕ)
    (more : List ℕ → Reader → World → Option Line) (o : Option (CharResult × Reader × World))
    → Next? r w o
    → length out + 1 ≤ bound
    → ((c : ℕ) (r' : Reader) (w' : World)
        → IsValid r'
        → Stored? bound (out ++ (c ∷ [])) (unread r' w') (more (out ++ (c ∷ [])) r' w'))
    → Stored? bound out (unread r w) (read_line_round out more o)
unfolding read_line_round
read_line_round-Stored out r w bound more none n h ih = tt
read_line_round-Stored out r w bound more (some (char c, r', w')) n h ih =
    elim (Bool-cases (c == 10)) [
      | inl e ↦ rw e (
          Stored-snoc bound c out (unread r w) (unread r' w') (some _) n.1 (record {
            valid = n.0;
            split = refl;
            fits = omega (arith, length-append out (c ∷ []));
          }))
      | inr e ↦ rw e (
          Stored-snoc bound c out (unread r w) (unread r' w') (more (out ++ (c ∷ [])) r' w') n.1
            (ih c r' w' n.0))
    ]
read_line_round-Stored out r w bound more (some (finished, r', w')) n h ih = record {
  valid = n.0;
  split = ap (λ b. out ++ b) n.1;
  fits = omega arith;
}
read_line_round-Stored out r w bound more (some (broken, r', w')) n h ih = record {
  valid = n.0;
  split = ap (λ b. out ++ b) n.1;
  fits = omega arith;
}

read_line_loop-Stored :
    (rounds : ℕ) (out : List ℕ) (r : Reader) (w : World) (bound : ℕ)
    → IsValid r
    → length out + rounds ≤ bound
    → Stored? bound out (unread r w) (read_line_loop rounds out r w)
unfolding read_line_loop char_read
read_line_loop-Stored zero out r w bound v h = record {
  valid = v;
  split = refl;
  fits = omega arith;
}
read_line_loop-Stored (suc rounds) out r w bound v h =
    read_line_round-Stored out r w bound (λ o r' w'. read_line_loop rounds o r' w') _
      (my_read-Next r w v) (omega arith)
      (λ c r' w' v'.
        read_line_loop-Stored rounds (out ++ (c ∷ [])) r' w' bound v'
          (omega (arith, length-append out (c ∷ []))))

-- Whatever the kernel answers: what readLine has stored when it returns are the next bytes of the
-- stream, at most maxlen of them, and the rest is still to come.
pub read_line-Stored :
    (maxlen : ℕ) (r : Reader) (w : World) {l : Line}
    → IsValid r
    → read_line maxlen r w ≡ some l
    → IsValid l.reader
      × (l.stored ++ unread l.reader l.world ≡ unread r w)
      × (length l.stored ≤ maxlen)
unfolding read_line
read_line-Stored maxlen r w {l} v e =
    let s : Stored? maxlen [] (unread r w) (some l) =
      rw e at (read_line_loop-Stored maxlen [] r w maxlen v (omega arith)) in
    (s.valid, s.split, s.fits)

read_line_loop-line :
    (rounds : ℕ) (out l rest : List ℕ) (r : Reader) (w : World)
    → IsValid r
    → All Serves w.turns
    → NoNewline l
    → length l < rounds
    → length l < served w.turns
    → unread r w ≡ l ++ (10 ∷ rest)
    → Reads (length out + length l) (out ++ (l ++ (10 ∷ []))) rest (read_line_loop rounds out r w)
unfolding read_line_loop read_line_round char_read
read_line_loop-line zero out l rest r w v sv nn lt en e = absurd (omega arith)
read_line_loop-line (suc rounds) out [] rest r w v sv nn lt en e =
    let g = my_read-GotChar r w 10 rest v sv (omega arith) e in
    record {
      line = record {
        result = pos (length out);
        stored = out ++ (10 ∷ []);
        reader = g.reader;
        world = g.world;
      };
      returned = rw (g.returned) refl;
      result = ap pos (omega arith);
      stored = refl;
      valid = g.valid;
      left = g.left;
    }
read_line_loop-line (suc rounds) out (c ∷ l) rest r w v sv nn lt en e =
    let g = my_read-GotChar r w c (l ++ (10 ∷ rest)) v sv (omega arith) e in
    let rec =
      read_line_loop-line rounds (out ++ (c ∷ [])) l rest g.reader g.world g.valid g.serves nn.1
        (omega arith) (omega (arith, g.fewer)) g.left in
    record {
      line = rec.line;
      returned = rw (g.returned, nn.0) rec.returned;
      result = rec.result ∙ ap pos (omega (arith, length-append out (c ∷ [])));
      stored = rec.stored ∙ append_assoc out (c ∷ []) (l ++ (10 ∷ []));
      valid = rec.valid;
      left = rec.left;
    }

-- From a descriptor that serves, with a call for each byte, readLine reads a line of fewer than
-- maxlen bytes whole, and returns its length without the newline: 0 for an empty line.
pub read_line_lem :
    (maxlen : ℕ) (l rest : List ℕ) (r : Reader) (w : World)
    → IsValid r
    → All Serves w.turns
    → NoNewline l
    → length l < maxlen
    → length l < served w.turns
    → unread r w ≡ l ++ (10 ∷ rest)
    → (line : Line) × (read_line maxlen r w ≡ some line)
      × (line.result ≡ pos (length l))
      × (line.stored ≡ l ++ (10 ∷ []))
      × IsValid line.reader
      × (unread line.reader line.world ≡ rest)
unfolding read_line
read_line_lem maxlen l rest r w v sv nn fit en e =
    let d = read_line_loop-line maxlen [] l rest r w v sv nn fit en e in
    (d.line, d.returned, d.result ∙ ap pos (omega arith), d.stored, d.valid, d.left)

read_line_loop-full :
    (out l rest : List ℕ) (r : Reader) (w : World)
    → IsValid r
    → All Serves w.turns
    → NoNewline l
    → length l ≤ served w.turns
    → unread r w ≡ l ++ rest
    → Reads (length out + length l) (out ++ l) rest (read_line_loop (length l) out r w)
unfolding read_line_loop read_line_round char_read
read_line_loop-full out [] rest r w v sv nn en e = record {
  line = _;
  returned = refl;
  result = ap pos (omega arith);
  stored = sym (append-nil out);
  valid = v;
  left = e;
}
read_line_loop-full out (c ∷ l) rest r w v sv nn en e =
    let g = my_read-GotChar r w c (l ++ rest) v sv (omega arith) e in
    let rec =
      read_line_loop-full (out ++ (c ∷ [])) l rest g.reader g.world g.valid g.serves nn.1
        (omega (arith, g.fewer)) g.left in
    record {
      line = rec.line;
      returned = rw (g.returned, nn.0) rec.returned;
      result = rec.result ∙ ap pos (omega (arith, length-append out (c ∷ [])));
      stored = rec.stored ∙ append_assoc out (c ∷ []) l;
      valid = rec.valid;
      left = rec.left;
    }

-- From a descriptor that serves, with a call for each byte, when the first maxlen bytes of the
-- stream hold no newline: readLine stores all of them, so that its closing zero, behind the stored
-- bytes, is written at index maxlen, outside the buffer.
pub read_line_overflows :
    (maxlen : ℕ) (l rest : List ℕ) (r : Reader) (w : World)
    → IsValid r
    → All Serves w.turns
    → NoNewline l
    → length l ≡ maxlen
    → maxlen ≤ served w.turns
    → unread r w ≡ l ++ rest
    → (line : Line) × (read_line maxlen r w ≡ some line)
      × (line.stored ≡ l)
      × (length line.stored ≡ maxlen)
unfolding read_line
read_line_overflows maxlen l rest r w v sv nn fit en e =
    let d = read_line_loop-full [] l rest r w v sv nn (omega arith) e in
    (
      d.line,
      ap (λ k. read_line_loop k [] r w) (sym fit) ∙ d.returned,
      d.stored,
      ap length d.stored ∙ fit,
    )
