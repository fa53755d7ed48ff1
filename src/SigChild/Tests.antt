-- ===== src/SigChild/Tests.antt =====
-- linux07/sigchild.c and linux07/sigchildReally.c: a parent of three children.
use linux_c_study.Prelude.{◌+◌, ◌≡◌, refl, true, false, some, [], ◌∷◌, arith}
use linux_c_study.SigChild.{
  parent, child, goes_on, fork_loop, Parent, sighandler, waitpid, Reach, here, next, ends, delivers,
  handles, unblocks, start,
}
use linux_c_study.SigChild.Reaped.{Reach-none_left}

-- Two of three children have ended, and their signals wait for the parent.
abbrev two_ended : Parent
two_ended = record {
  alive = 1;
  zombies = 2;
  quit = 0;
  pending = false;
  blocked = false;
  handling = true;
}

two_ended-Reach : Reach sighandler (start true 3) two_ended
two_ended-Reach =
    next (next (next (next here (ends (omega arith))) (ends (omega arith))) unblocks)
      (delivers refl refl refl)

-- The handler has returned.
abbrev quiet : Parent
quiet = record two_ended { zombies = 0; quit = 2; handling = false }

quiet-Reach : Reach sighandler (start true 3) quiet
unfolding sighandler waitpid
quiet-Reach = next (next (next two_ended-Reach (handles refl)) (handles refl)) (handles refl)

Reach-none_left_example : (quiet.zombies ≡ 0) × (quiet.alive + quiet.quit ≡ 3)
Reach-none_left_example = Reach-none_left true 3 {p = quiet} quiet-Reach refl refl

-- The parent of three children, and its second child.
fork_loop-three :
    (fork_loop 3 0 (parent ∷ parent ∷ parent ∷ []) ≡ some (goes_on 3))
    × (fork_loop 3 0 (parent ∷ child ∷ []) ≡ some (goes_on 1))
unfolding fork_loop
fork_loop-three = (refl, refl)
