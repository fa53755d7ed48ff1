-- ===== src/LocalClient/Tests.antt =====
-- A line that comes back in two reads, of which the client makes one.
use linux_c_study.Prelude.{ℕ, ◌≡◌, refl, ◌≢◌, inr, false, List, [], ◌∷◌, ◌++◌, map, arith}
use linux_c_study.Kernel.{got, failed, value, other}
use linux_c_study.SelectServer.{toupper}
use linux_c_study.UpperServer.{bytes}
use linux_c_study.UpperServer.Replies.{sent_bytes}
use linux_c_study.LocalClient.{
  Pair, asks, ask, read_answer, typed, served, answered, Reach, here, next, connected, setup,
}
use linux_c_study.LocalClient.Conversation.{concat, Reach-upper}

abbrev half_read : Pair
half_read = record {
  phase = asks;
  to_service = [];
  to_client = 66 ∷ [];
  written = bytes (97 ∷ 98 ∷ []) ∷ [];
  answers = (65 ∷ []) ∷ [];
}

not_nil : (b : ℕ) (bs : List ℕ) → b ∷ bs ≢ []
not_nil b bs e = ground arith

abbrev run : Reach connected half_read
unfolding ask read_answer toupper
run =
    next (next (next here (typed (got (97 ∷ 98 ∷ [])) refl)) (served 5 (omega arith) (not_nil _ _)))
      (answered 1 (omega arith) refl (not_nil _ _))

Reach-upper_example :
    concat half_read.answers ++ (half_read.to_client ++ map toupper half_read.to_service)
    ≡ map toupper (sent_bytes half_read.written)
Reach-upper_example = Reach-upper run

-- connect has succeeded with 0, and so `afd`, which is closed in the end, is the terminal.
setup-afd : setup false (failed other) (value 0) (value 0) ≡ inr 0
unfolding setup
setup-afd = refl
