-- ===== src/PollServer/Replies.antt =====
-- What one round of poll.c sends to each client.
use linux_c_study.Prelude.{
  ℕ, zero, suc, ◌+◌, ◌-◌, ◌≤◌, ◌≡◌, refl, sym, ap, ◌∙◌, ◌≢◌, inl, inr, Bool, true, false, Option,
  none, some, List, [], ◌∷◌, ◌++◌, append_assoc, append-nil, arith, ◌==◌, if◌then◌else◌, Bool-cases,
  Option-cases,
}
use linux_c_study.Kernel.{Answer, error, got}
use linux_c_study.PollServer.{Server, Action, wrote, closed, bad_write, serve, visit, scan}

-- What a read of a client calls for.
abbrev pub due : ℕ → Answer → List Action
due fd (got []) = closed fd ∷ []
due fd (got (b ∷ bs)) = wrote fd (b ∷ bs) ∷ []
due fd (error e) = bad_write fd ∷ []

module _ (ready : ℕ → Bool) (answers : ℕ → Answer) (client : ℕ → Option ℕ) where
  -- What the entry i of the array calls for, when it is in use and reported.
  abbrev pub due_entry : ℕ → List Action
  due_entry i = elim (client i) [ none ↦ [] | some fd ↦ if ready i then due fd (answers i) else [] ]

  -- The same for `n` entries from i on, the last one first.
  abbrev pub due_entries : ℕ → ℕ → List Action
  due_entries zero i = []
  due_entries (suc n) i = due_entries n (i + 1) ++ due_entry i

  -- How many of them are in use and reported.
  abbrev pub count_due : ℕ → ℕ → ℕ
  count_due zero i = 0
  count_due (suc n) i =
      elim (client i) [ none ↦ 0 | some fd ↦ if ready i then 1 else 0 ] + count_due n (i + 1)

serve-log : (i fd : ℕ) (a : Answer) (s : Server) → (serve i fd a s).log ≡ due fd a ++ s.log
unfolding serve
serve-log i fd (got []) s = refl
serve-log i fd (got (b ∷ bs)) s = refl
serve-log i fd (error e) s = refl

serve-client :
    (i fd k : ℕ) (a : Answer) (s : Server) → i ≢ k → (serve i fd a s).client k ≡ s.client k
unfolding serve
serve-client i fd k (got []) s ne = ground arith
serve-client i fd k (got (b ∷ bs)) s ne = refl
serve-client i fd k (error e) s ne = refl

module _ (ready : ℕ → Bool) (answers : ℕ → Answer) where
  visit-free : (i : ℕ) (s : Server) → s.client i ≡ none → visit ready answers i s ≡ (false, s)
  unfolding visit
  visit-free i s e = rw (e, visit) refl

  visit-quiet :
      (i fd : ℕ) (s : Server)
      → s.client i ≡ some fd
      → ready i ≡ false
      → visit ready answers i s ≡ (false, s)
  unfolding visit
  visit-quiet i fd s e q = rw (e, visit, q) refl

  visit-ready :
      (i fd : ℕ) (s : Server)
      → s.client i ≡ some fd
      → ready i ≡ true
      → visit ready answers i s ≡ (true, serve i fd (answers i) s)
  unfolding visit
  visit-ready i fd s e q = rw (e, visit, q) refl

  scan-skips :
      (n i left : ℕ) (s : Server)
      → visit ready answers i s ≡ (false, s)
      → scan (suc n) ready answers i left s ≡ scan n ready answers (i + 1) left s
  unfolding scan
  scan-skips n i left s e = rw e refl

  scan-serves :
      (n i left : ℕ) (s t : Server)
      → visit ready answers i s ≡ (true, t)
      → scan (suc n) ready answers i left s
        ≡ (if left == 1 then t else scan n ready answers (i + 1) (left - 1) t)
  unfolding scan
  scan-serves n i left s t e = rw e refl

module _ (ready : ℕ → Bool) (answers : ℕ → Answer) (client : ℕ → Option ℕ) where
  due_entry-free : (i : ℕ) → client i ≡ none → due_entry ready answers client i ≡ []
  due_entry-free i e = rw (e, due_entry) refl

  due_entry-quiet :
      (i fd : ℕ) → client i ≡ some fd → ready i ≡ false → due_entry ready answers client i ≡ []
  due_entry-quiet i fd e q = rw (e, due_entry, q) refl

  due_entry-ready :
      (i fd : ℕ)
      → client i ≡ some fd
      → ready i ≡ true
      → due_entry ready answers client i ≡ due fd (answers i)
  due_entry-ready i fd e q = rw (e, due_entry, q) refl

  count_due-ready :
      (n i fd : ℕ)
      → client i ≡ some fd
      → ready i ≡ true
      → count_due ready answers client (suc n) i ≡ 1 + count_due ready answers client n (i + 1)
  count_due-ready n i fd e q = rw (e, q) refl

  due_entries-none :
      (n i : ℕ) → count_due ready answers client n i ≡ 0 → due_entries ready answers client n i ≡ []
  due_entries-none zero i h = refl
  due_entries-none (suc n) i h = elim (Option-cases (client i)) [
    | inl e ↦ rw (due_entry-free i e, due_entries-none n (i + 1) (omega arith)) refl
    | inr (fd, e) ↦ elim (Bool-cases (ready i)) [
      | inl q ↦ absurd (omega (arith, count_due-ready n i fd e q))
      | inr q ↦ rw (due_entry-quiet i fd e q, due_entries-none n (i + 1) (omega arith)) refl
    ]
  ]

  scan-skips_due :
      (n i left : ℕ) (s : Server)
      → visit ready answers i s ≡ (false, s)
      → due_entry ready answers client i ≡ []
      → (scan n ready answers (i + 1) left s).log
        ≡ due_entries ready answers client n (i + 1) ++ s.log
      → (scan (suc n) ready answers i left s).log
        ≡ due_entries ready answers client (suc n) i ++ s.log
  scan-skips_due n i left s v d rest =
      ap (λ (t : Server). t.log) (scan-skips ready answers n i left s v)
      ∙ rest
      ∙ ap (λ xs. xs ++ s.log)
          (sym (append-nil (due_entries ready answers client n (i + 1)))
            ∙ ap (λ xs. due_entries ready answers client n (i + 1) ++ xs) (sym d))

  -- From the entry i on the array is still as it was before the loop.
  scan-due :
      (n i left : ℕ) (s : Server)
      → ((k : ℕ) → i ≤ k → s.client k ≡ client k)
      → count_due ready answers client n i ≤ left
      → (scan n ready answers i left s).log ≡ due_entries ready answers client n i ++ s.log
  unfolding scan
  scan-due zero i left s same enough = refl
  scan-due (suc n) i left s same enough = elim (Option-cases (client i)) [
    | inl e ↦
        scan-skips_due n i left s (visit-free ready answers i s (same i (omega arith) ∙ e))
          (due_entry-free i e)
          (scan-due n (i + 1) left s (λ k h. same k (omega arith)) (omega arith))
    | inr (fd, e) ↦ elim (Bool-cases (ready i)) [
      | inl q ↦
          let t = serve i fd (answers i) s in
          let fewer = count_due-ready n i fd e q in
          let call : (serve i fd (answers i) s).log ≡ due_entry ready answers client i ++ s.log =
            serve-log i fd (answers i) s
            ∙ ap (λ xs. xs ++ s.log) (sym (due_entry-ready i fd e q)) in
          ap (λ (u : Server). u.log)
            (scan-serves ready answers n i left s t
              (visit-ready ready answers i fd s (same i (omega arith) ∙ e) q))
          ∙ elim (Bool-cases (left == 1)) [
            | inl one ↦
                rw (one, due_entries-none n (i + 1) (ground (arith, fewer, enough, one))) call
            | inr more ↦ rw more (
                scan-due n (i + 1) (left - 1) t
                  (λ k h.
                    serve-client i fd k (answers i) s (λ z. absurd (omega arith))
                    ∙ same k (omega arith))
                  (omega (arith, fewer, enough))
                ∙ ap (λ xs. due_entries ready answers client n (i + 1) ++ xs) call
                ∙ sym (
                    append_assoc (due_entries ready answers client n (i + 1))
                      (due_entry ready answers client i) s.log))
          ]
      | inr q ↦
          scan-skips_due n i left s (visit-quiet ready answers i fd s (same i (omega arith) ∙ e) q)
            (due_entry-quiet i fd e q)
            (scan-due n (i + 1) left s (λ k h. same k (omega arith)) (omega arith))
    ]
  ]

-- poll.c, the loop over the clients in a round in which poll has reported no more of them than it
-- counts: each entry that is in use and reported gets the one call that its own read asks for: an
-- echo of exactly what was read, the close at the end of the stream, or, after a failed read, a write
-- with the size -1. They come in the order of the entries; the other entries get none. The
-- count that ends the loop early leaves nobody out.
pub scan-due_entries :
    (ready : ℕ → Bool) (answers : ℕ → Answer) (left : ℕ) (s : Server)
    → count_due ready answers s.client s.maxftd 1 ≤ left
    → (scan s.maxftd ready answers 1 left s).log
      ≡ due_entries ready answers s.client s.maxftd 1 ++ s.log
scan-due_entries ready answers left s enough =
    scan-due ready answers s.client s.maxftd 1 left s (λ k h. refl) enough
