-- ===== src/Wrap/Stored.antt =====
-- What Readline has stored, whatever the kernel answers.
use linux_c_study.Prelude.{
  ℕ, zero, suc, ◌+◌, ◌-◌, ◌≤◌, ◌≡◌, refl, sym, ap, ◌∙◌, inl, inr, false, Option, none, some, List,
  [], ◌∷◌, ◌++◌, append_assoc, arith, ◌==◌, Bool-cases, length, length-append,
}
use linux_c_study.Kernel.{World}
use linux_c_study.Prelude.Bytes.{All}
use linux_c_study.Wrap.{
  Reader, CharResult, char, finished, broken, my_read, Line, readline_round, readline_loop,
  readline,
}
use linux_c_study.Wrap.Buffer.{IsValid, unread, Next?, my_read-Next}

-- No byte of the list is a newline.
abbrev pub NoNewline : List ℕ → Type 0
NoNewline = All (λ c. (c == 10) ≡ false)

-- What a line reader has done with the bytes that were to come, behind those in `out`.
pub record Stored (bound : ℕ) (out before : List ℕ) (l : Line) : Type 0 where
  pub valid : IsValid l.reader
  pub split : l.stored ++ unread l.reader l.world ≡ out ++ before
  pub fits : length l.stored ≤ bound

abbrev pub Stored? : ℕ → List ℕ → List ℕ → Option Line → Type 0
Stored? bound out before none = Unit
Stored? bound out before (some l) = Stored bound out before l

-- One more character, and then the rest of the line.
pub Stored-snoc :
    (bound c : ℕ) (out before after : List ℕ) (o : Option Line)
    → before ≡ c ∷ after
    → Stored? bound (out ++ (c ∷ [])) after o
    → Stored? bound out before o
Stored-snoc bound c out before after none e h = tt
Stored-snoc bound c out before after (some l) e h = record {
  valid = h.valid;
  split = h.split ∙ append_assoc out (c ∷ []) after ∙ ap (λ r. out ++ r) (sym e);
  fits = h.fits;
}

readline_round-Stored :
    (out : List ℕ) (r : Reader) (w : World) (bound : ℕ)
    (more : List ℕ → Reader → World → Option Line) (o : Option (CharResult × Reader × World))
    → Next? r w o
    → length out + 1 ≤ bound
    → ((c : ℕ) (r' : Reader) (w' : World)
        → IsValid r'
        → Stored? bound (out ++ (c ∷ [])) (unread r' w') (more (out ++ (c ∷ [])) r' w'))
    → Stored? bound out (unread r w) (readline_round out more o)
unfolding readline_round
readline_round-Stored out r w bound more none n h ih = tt
readline_round-Stored out r w bound more (some (char c, r', w')) n h ih =
    elim (Bool-cases (c == 10)) [
      | inl e ↦ rw e (
          Stored-snoc bound c out (unread r w) (unread r' w') (some _) n.1 (record {
            valid = n.0;
            split = refl;
            fits = omega (arith, length-append out (c ∷ []));
          }))
      | inr e ↦ rw e (
          Stored-snoc bound c out (unread r w) (unread r' w') (more (out ++ (c ∷ [])) r' w') n.1
            (ih c r' w' n.0))
    ]
readline_round-Stored out r w bound more (some (finished, r', w')) n h ih = record {
  valid = n.0;
  split = ap (λ b. out ++ b) n.1;
  fits = omega arith;
}
readline_round-Stored out r w bound more (some (broken, r', w')) n h ih = record {
  valid = n.0;
  split = ap (λ b. out ++ b) n.1;
  fits = omega arith;
}

readline_loop-Stored :
    (rounds : ℕ) (out : List ℕ) (r : Reader) (w : World) (bound : ℕ)
    → IsValid r
    → length out + rounds ≤ bound
    → Stored? bound out (unread r w) (readline_loop rounds out r w)
unfolding readline_loop
readline_loop-Stored zero out r w bound v h = record { valid = v; split = refl; fits = omega arith }
readline_loop-Stored (suc rounds) out r w bound v h =
    readline_round-Stored out r w bound (λ o r' w'. readline_loop rounds o r' w') (my_read r w)
      (my_read-Next r w v) (omega arith)
      (λ c r' w' v'.
        readline_loop-Stored rounds (out ++ (c ∷ [])) r' w' bound v'
          (omega (arith, length-append out (c ∷ []))))

-- Whatever the kernel answers: what Readline has stored when it returns are the next bytes of the
-- stream, the rest is still to come, and with the closing zero they fit into maxlen bytes.
pub readline-Stored :
    (maxlen : ℕ) (r : Reader) (w : World) {l : Line}
    → IsValid r
    → 1 ≤ maxlen
    → readline maxlen r w ≡ some l
    → (l.stored ++ unread l.reader l.world ≡ unread r w) × (length l.stored + 1 ≤ maxlen)
unfolding readline
readline-Stored maxlen r w {l} v h e =
    let s : Stored? (maxlen - 1) [] (unread r w) (some l) =
      rw e at (readline_loop-Stored (maxlen - 1) [] r w (maxlen - 1) v (omega arith)) in
    (s.split, omega (arith, s.fits))
