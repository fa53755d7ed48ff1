-- ===== src/Http/Reader/Ends.antt =====
-- readLine returns, over any answers of the kernel, and does not depend on those that it does not use.
use linux_c_study.Prelude.{
  ℕ, zero, suc, ◌+◌, ◌≤◌, ◌≡◌, refl, ap, inl, inr, true, Option, none, some, List, [], ◌∷◌, ◌++◌,
  arith, ◌==◌, Bool-cases, Option-cases, length, length-append,
}
use linux_c_study.Kernel.{World, Turn}
use linux_c_study.Prelude.Int.{pos, negsuc, sub_ℕ, is_positive}
use mathlib.Core.Path.{subst}
use linux_c_study.Wrap.{my_read, Reader, Line, CharResult, char, finished, broken}
use linux_c_study.Wrap.Buffer.{IsValid, unread, Effect}
use linux_c_study.Wrap.Answered.{answered, my_read-Returned, with_more, my_read-with_more}
use linux_c_study.Http.Reader.{char_read, read_line_round, read_line_loop, read_line}

-- A line reader that was given `n` bytes has returned; a positive result has used up a byte, and no
-- more calls have been answered than bytes have been used up, and one.
pub record Ends (n : ℕ) (r : Reader) (w : World) (o : Option Line) : Type 0 where
  pub line : Line
  pub returned : o ≡ some line
  pub valid : IsValid line.reader
  pub fewer : length (unread line.reader line.world) ≤ length (unread r w)
  pub calls :
      answered w.turns + length (unread line.reader line.world)
      ≤ answered line.world.turns + length (unread r w) + 1
  pub progress : is_positive line.result ≡ true → length (unread line.reader line.world) + 1 ≤ n

-- One round, for what char_read has returned.
round-Ends :
    (rounds : ℕ) (out : List ℕ) (r : Reader) (w : World) (c : CharResult) (r' : Reader) (w' : World)
    → length (unread r w) + 1 ≤ answered w.turns
    → Effect c (unread r w) (unread r' w')
    → IsValid r'
    → answered w.turns ≤ answered w'.turns + 1
    → ((o : List ℕ)
        → length (unread r' w') + 1 ≤ answered w'.turns
        → Ends (length (unread r' w') + length o) r' w' (read_line_loop rounds o r' w'))
    → Ends
        (length (unread r w) + length out)
        r
        w
        (read_line_round out (λ o a b. read_line_loop rounds o a b) (some (c, r', w')))
unfolding read_line_round
round-Ends rounds out r w finished r' w' en eff v fewer rec = record {
  line = record { result = sub_ℕ (length out) 1; stored = out; reader = r'; world = w' };
  returned = refl;
  valid = v;
  fewer = omega (arith, ap length eff);
  calls = omega (arith, ap length eff);
  progress = λ p. ground (arith, ap length eff);
}
round-Ends rounds out r w broken r' w' en eff v fewer rec = record {
  line = record { result = negsuc 0; stored = out; reader = r'; world = w' };
  returned = refl;
  valid = v;
  fewer = omega (arith, ap length eff);
  calls = omega (arith, ap length eff);
  progress = λ p. ground arith;
}
round-Ends rounds out r w (char c) r' w' en eff v fewer rec = elim (Bool-cases (c == 10)) [
  | inl nl ↦ record {
    line = record { result = pos (length out); stored = out ++ (c ∷ []); reader = r'; world = w' };
    returned = rw nl refl;
    valid = v;
    fewer = omega (arith, ap length eff);
    calls = omega (arith, ap length eff);
    progress = λ p. omega (arith, ap length eff);
  }
  | inr other ↦
      let e = rec (out ++ (c ∷ [])) (omega (arith, ap length eff)) in
      record {
        line = e.line;
        returned = rw other e.returned;
        valid = e.valid;
        fewer = omega (arith, ap length eff, e.fewer);
        calls = omega (arith, ap length eff, e.calls);
        progress = λ p. omega (arith, e.progress p, ap length eff, length-append out (c ∷ []));
      }
]

read_line_loop-Ends :
    (rounds : ℕ) (out : List ℕ) (r : Reader) (w : World)
    → IsValid r
    → length (unread r w) + 1 ≤ answered w.turns
    → Ends (length (unread r w) + length out) r w (read_line_loop rounds out r w)
unfolding read_line_loop char_read
read_line_loop-Ends zero out r w v en = record {
  line = record { result = pos (length out); stored = out; reader = r; world = w };
  returned = refl;
  valid = v;
  fewer = omega arith;
  calls = omega arith;
  progress = λ p. ground arith;
}
read_line_loop-Ends (suc rounds) out r w v en =
    let g = my_read-Returned r w v (omega (arith, en)) in
    rw (g.returned) (
      round-Ends rounds out r w g.char_result g.reader g.world en g.next.1 g.next.0 g.fewer
        (λ o en'. read_line_loop-Ends rounds o g.reader g.world g.next.0 en'))

pub read_line-Ends :
    (maxlen : ℕ) (r : Reader) (w : World)
    → IsValid r
    → length (unread r w) + 1 ≤ answered w.turns
    → Ends (length (unread r w)) r w (read_line maxlen r w)
unfolding read_line
read_line-Ends maxlen r w v en =
    subst (λ n. Ends n r w (read_line_loop maxlen [] r w)) (omega arith)
      (read_line_loop-Ends maxlen [] r w v en)

module _ (more : List Turn) where
  abbrev pub line_more : Line → Line
  line_more l = record l { world = with_more more l.world }

  abbrev lift : Option Line → Option Line
  lift none = none
  lift (some l) = some (line_more l)

  round-with_more :
      (rounds : ℕ) (out : List ℕ) (c : CharResult) (r : Reader) (w : World) {l : Line}
      → ((o : List ℕ) (k : Line)
          → read_line_loop rounds o r w ≡ some k
          → read_line_loop rounds o r (with_more more w) ≡ some (line_more k))
      → read_line_round out (λ o a b. read_line_loop rounds o a b) (some (c, r, w)) ≡ some l
      → read_line_round out (λ o a b. read_line_loop rounds o a b) (some (c, r, with_more more w))
        ≡ some (line_more l)
  unfolding read_line_round
  round-with_more rounds out finished r w rec h = ap lift h
  round-with_more rounds out broken r w rec h = ap lift h
  round-with_more rounds out (char c) r w rec h = elim (Bool-cases (c == 10)) [
    | inl nl ↦ rw nl (ap lift (rw nl at h))
    | inr other ↦ rw other (rec (out ++ (c ∷ [])) _ (rw other at h))
  ]

  read_line_loop-with_more :
      (rounds : ℕ) (out : List ℕ) (r : Reader) (w : World) {l : Line}
      → read_line_loop rounds out r w ≡ some l
      → read_line_loop rounds out r (with_more more w) ≡ some (line_more l)
  unfolding read_line_loop char_read read_line_round
  read_line_loop-with_more zero out r w h = ap lift h
  read_line_loop-with_more (suc rounds) out r w h = elim (Option-cases (my_read r w)) [
    | inl e ↦ absurd (ground (arith, rw e at h))
    | inr ((c, r', w'), e) ↦ rw (my_read-with_more more r w e) (
        round-with_more rounds out c r' w' (λ o k q. read_line_loop-with_more rounds o r' w' q)
          (rw e at h))
  ]

  -- readLine does not depend on the answers behind those that it uses.
  pub read_line-with_more :
      (maxlen : ℕ) (r : Reader) (w : World) {l : Line}
      → read_line maxlen r w ≡ some l
      → read_line maxlen r (with_more more w) ≡ some (line_more l)
  unfolding read_line
  read_line-with_more maxlen r w h = read_line_loop-with_more maxlen [] r w h
