-- ===== src/BufferClient/Freed.antt =====
-- libevent/bufferevent-client.c: what is freed twice, and what the callbacks pass on.
use linux_c_study.Prelude.{
  ℕ, ◌≡◌, refl, sym, ap, ◌∙◌, ◌⊎◌, inl, inr, Bool, true, false, not, ◌||◌, some, List, [], ◌∷◌,
  ◌++◌, arith, Bool-cases,
}
use linux_c_study.BufferClient.{
  Client, bufferevent_free, event_free, Outcome, exits, goes_on, What, event_cb, Call, event,
  callback, dispatch, main,
}

-- The event that event_cb does not return early on.
abbrev pub quits : What → Bool
quits w = w.eof || (w.error_ || not w.connected)

event_cb-quits :
    (w : What) (c : Client) → quits w ≡ true → event_cb w c ≡ event_free (bufferevent_free c)
unfolding event_cb
event_cb-quits w c q = elim (Bool-cases w.eof) [
  | inl h ↦ rw (h, event_cb) refl
  | inr h ↦ elim (Bool-cases w.error_) [
    | inl k ↦ rw (h, k, event_cb) refl
    | inr k ↦ let z : w.connected ≡ false = ground arith in rw (h, k, z, event_cb) refl
  ]
]

Outcome-cases : (o : Outcome) → ((n : ℕ) × (o ≡ exits n)) ⊎ ((c : Client) × (o ≡ goes_on c))
Outcome-cases (exits n) = inl (n, refl)
Outcome-cases (goes_on c) = inr (c, refl)

dispatch-quits :
    (calls : List Call) (w : What) (c : Client) {d : Client}
    → quits w ≡ true
    → dispatch (calls ++ event w ∷ []) c ≡ goes_on d
    → d.ev_cmd ≡ false
unfolding dispatch callback
dispatch-quits [] w c {d} q h =
    let e : event_cb w c ≡ d = ground arith in
    sym (ap (λ x. x.ev_cmd) e) ∙ ap (λ x. x.ev_cmd) (event_cb-quits w c q)
dispatch-quits (call ∷ calls) w c {d} q h = elim (Outcome-cases (callback call c)) [
  | inl (n, e) ↦ absurd (ground arith)
  | inr (c', e) ↦ dispatch-quits calls w c' {d = d} q (ground arith)
]

-- When the connection has ended, by the server or by an error, event_cb has freed both objects, and
-- main frees them once more.
pub main-twice :
    (calls : List Call) (w : What) {c : Client}
    → quits w ≡ true
    → main (calls ++ event w ∷ []) ≡ some c
    → c.twice ≡ true
unfolding main
main-twice calls w {c} q h =
    go
      (dispatch (calls ++ event w ∷ [])
        (record { bev = true; ev_cmd = true; twice = false; output = [] }))
      refl
  where
    go :
        (o : Outcome)
        → dispatch
            (calls ++ event w ∷ [])
            (record { bev = true; ev_cmd = true; twice = false; output = [] })
          ≡ o
        → c.twice ≡ true
    go (exits n) e = absurd (ground arith)
    go (goes_on d) e = let f = dispatch-quits calls w _ {d = d} q e in ground (arith, f)
