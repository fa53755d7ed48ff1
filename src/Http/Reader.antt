-- ===== src/Http/Reader.antt =====
-- httpService/http_service.c: char_read and readLine, which read a request a line at a time.
pub mod Laws
pub mod Ends
mod Tests
use linux_c_study.Prelude.{
  ℕ, zero, suc, Option, none, some, List, [], ◌∷◌, ◌++◌, ◌==◌, if◌then◌else◌, length,
}
use linux_c_study.Kernel.{World}
use linux_c_study.Prelude.Int.{pos, negsuc, sub_ℕ}
use linux_c_study.Wrap.{Reader, CharResult, char, finished, broken, my_read, Line}

-- char_read is the code of my_read of linux-network/wrap.c, over static variables of its own.
unfoldable pub char_read : Reader → World → Option (CharResult × Reader × World)
char_read r w = my_read r w

-- One round of readLine, by what char_read returned; `more` is the rest of the loop. The newline is
-- stored, but `i` does not count it; at the end of the stream `i - 1` is returned.
unfoldable pub read_line_round :
    List ℕ
    → (List ℕ → Reader → World → Option Line)
    → Option (CharResult × Reader × World)
    → Option Line
read_line_round out more none = none
read_line_round out more (some (char c, r, w)) =
    if c == 10
    then some
        (record { result = pos (length out); stored = out ++ (c ∷ []); reader = r; world = w })
    else more (out ++ (c ∷ [])) r w
read_line_round out more (some (finished, r, w)) =
    some (record { result = sub_ℕ (length out) 1; stored = out; reader = r; world = w })
read_line_round out more (some (broken, r, w)) =
    some (record { result = negsuc 0; stored = out; reader = r; world = w })

-- The loop of readLine with `rounds` values of i left below maxlen. The closing zero goes behind
-- the stored bytes, to vptr[maxlen] if maxlen bytes have been stored, with a newline as the last of
-- them or without one; it is not kept here.
unfoldable pub read_line_loop : ℕ → List ℕ → Reader → World → Option Line
read_line_loop zero out r w =
    some (record { result = pos (length out); stored = out; reader = r; world = w })
read_line_loop (suc rounds) out r w =
    read_line_round out (λ o r' w'. read_line_loop rounds o r' w') (char_read r w)

unfoldable pub read_line : ℕ → Reader → World → Option Line
read_line maxlen r w = read_line_loop maxlen [] r w
