-- ===== src/Wrap/Counted.antt =====
-- Readn and Writen: how many bytes they move, and which.
use linux_c_study.Prelude.{
  ℕ, zero, suc, ◌+◌, ◌-◌, ◌≤◌, ◌<◌, min, ◌≡◌, refl, sym, ap, ◌∙◌, ◌⊎◌, Option, some, List, [], ◌∷◌,
  ◌++◌, append_assoc, append-nil, arith, suc-==-zero, length, length-append, take, drop,
  take-append-drop, length-take, take-append-take, drop-drop,
}
use linux_c_study.Kernel.{Turn, fault, give, World, Serves, served}
use linux_c_study.Prelude.Int.{pos, negsuc}
use linux_c_study.Prelude.Bytes.{All}
use linux_c_study.Wrap.{Transfer, readn_loop, readn}

-- What a read of `n` bytes in several calls has done with the bytes that were pending.
pub record Moved (n : ℕ) (before : List ℕ) (t : Transfer) : Type 0 where
  pub split : t.moved ++ t.rest.pending ≡ before
  pub bounded : length t.moved ≤ n
  pub counted : (t.result ≡ pos (length t.moved)) ⊎ (t.result ≡ negsuc 0)

module _ (n : ℕ) (before : List ℕ) where
  readn_loop-Moved :
      (nleft : ℕ) (out pending : List ℕ) (turns : List Turn) {t : Transfer}
      → out ++ pending ≡ before
      → length out + nleft ≡ n
      → readn_loop nleft out pending turns ≡ some t
      → Moved n before t
  unfolding readn_loop
  readn_loop-Moved nleft out pending [] s b e = ground arith
  readn_loop-Moved nleft out pending (fault x ∷ turns) {t} s b e =
      ground (arith, readn_loop-Moved nleft out pending turns {t = t} s b)
  readn_loop-Moved nleft out pending (give k ∷ turns) {t} s b e =
      let nread : List ℕ = take (min k nleft) pending in
      ground (
        arith,
        readn_loop-Moved (nleft - length nread) (out ++ nread) (drop (min k nleft) pending) turns
            {t = t}
            (append_assoc out nread (drop (min k nleft) pending)
              ∙ ap (λ r. out ++ r) (take-append-drop (min k nleft) pending)
              ∙ s)
            (omega (arith, length-append out nread, length-take (min k nleft) pending)),
      )

-- Whatever the kernel answers: when Readn returns, the bytes in the buffer are the first of those
-- pending, at most n of them, and the result is their number or -1.
pub readn-Moved : (n : ℕ) (w : World) {t : Transfer} → readn n w ≡ some t → Moved n w.pending t
unfolding readn
readn-Moved n w e = readn_loop-Moved n w.pending n [] w.pending w.turns refl (omega arith) e

-- The transfer has moved what was asked for, as far as it was pending, behind `out`.
record Full (nleft : ℕ) (out pending : List ℕ) (o : Option Transfer) : Type 0 where
  transfer : Transfer
  returned : o ≡ some transfer
  result : transfer.result ≡ pos (length transfer.moved)
  moved : transfer.moved ≡ out ++ take nleft pending
  left : transfer.rest.pending ≡ drop nleft pending

-- One call that moved `j + 1` bytes, the first of them `c`, and the rest of the transfer.
Full-step :
    (m j c : ℕ) (out cs : List ℕ) (o : Option Transfer)
    → j ≤ m
    → Full (m - length (take j cs)) (out ++ (c ∷ take j cs)) (drop j cs) o
    → Full (suc m) out (c ∷ cs) o
Full-step m j c out cs o le full = record {
  transfer = transfer;
  returned = returned;
  result = result;
  moved =
      moved
      ∙ append_assoc out (c ∷ take j cs) (take (m - length (take j cs)) (drop j cs))
      ∙ ap (λ r. out ++ (c ∷ r)) (take-append-take j m cs le);
  left = left ∙ drop-drop j m cs le;
}
  where
    open full use {transfer, returned, result, moved, left}

readn_loop-Full :
    (nleft : ℕ) (out pending : List ℕ) (turns : List Turn)
    → All Serves turns
    → nleft < served turns
    → Full nleft out pending (readn_loop nleft out pending turns)
unfolding readn_loop
readn_loop-Full zero out pending [] serves enough = absurd (omega arith)
readn_loop-Full (suc m) out pending [] serves enough = absurd (omega arith)
readn_loop-Full zero out pending (fault x ∷ turns) serves enough = record {
  transfer = _;
  returned = refl;
  result = refl;
  moved = sym (append-nil out);
  left = refl;
}
readn_loop-Full zero out pending (give k ∷ turns) serves enough = record {
  transfer = _;
  returned = refl;
  result = refl;
  moved = sym (append-nil out);
  left = refl;
}
readn_loop-Full (suc m) out pending (fault x ∷ turns) serves enough =
    rw (suc-==-zero m, serves.0) (readn_loop-Full (suc m) out pending turns serves.1 enough)
readn_loop-Full (suc m) out pending (give zero ∷ turns) serves enough = absurd (omega arith)
readn_loop-Full (suc m) out [] (give (suc k) ∷ turns) serves enough =
    let e : min (suc k) (suc m) ≡ suc (min k m) = omega arith in
    rw (suc-==-zero m, e)
      (record {
        transfer = _;
        returned = refl;
        result = refl;
        moved = sym (append-nil out);
        left = refl;
      })
readn_loop-Full (suc m) out (c ∷ cs) (give (suc k) ∷ turns) serves enough =
    let e : min (suc k) (suc m) ≡ suc (min k m) = omega arith in
    let d : suc m - suc (length (take (min k m) cs)) ≡ m - length (take (min k m) cs) =
      omega arith in
    rw (suc-==-zero m, e, suc-==-zero, d)
      (Full-step m (min k m) c out cs _ (omega arith) (
        readn_loop-Full (m - length (take (min k m) cs)) (out ++ (c ∷ take (min k m) cs))
          (drop (min k m) cs) turns serves.1 (omega arith)))

-- From a descriptor that serves, with more than n calls that are not interrupted, Readn returns; it
-- has read the first n bytes of those pending, or all of them if there are fewer, and returns
-- their number. How the kernel cuts the bytes, and its interruptions, make no difference.
pub readn_lem :
    (n : ℕ) (w : World)
    → All Serves w.turns
    → n < served w.turns
    → (t : Transfer) × (readn n w ≡ some t)
      × (t.result ≡ pos (length t.moved))
      × (t.moved ≡ take n w.pending)
      × (t.rest.pending ≡ drop n w.pending)
unfolding readn
readn_lem n w serves enough = (transfer, returned, result, moved, left)
  where
    open (readn_loop-Full n [] w.pending w.turns serves enough) use {
      transfer, returned, result, moved, left,
    }
