-- ===== src/Layouts/Store/Commit.antt =====
-- The copy of the layouts, stored or not.
use mizer.Prelude.{◌≡◌, arith}
use mizer.Commander.Executor.{Error, Result, ok, err}
use mizer.Layouts.{Layouts}
use mizer.Layouts.Store.{commit}

pub commit-ok :
    {B : Type 0} (ls ls' : Layouts) (r : Result (Layouts × B)) (o : Unit {0}) (b : B)
    → commit ls r ≡ (ok (o, b), ls')
    → r ≡ ok (ls', b)
unfolding commit
commit-ok ls ls' (ok (ls'', b')) o b h = ground arith
commit-ok ls ls' (err e) o b h = ground arith

pub commit-err :
    {B : Type 0} (ls ls' : Layouts) (r : Result (Layouts × B)) (e : Error)
    → commit ls r ≡ (err e, ls')
    → ls' ≡ ls
unfolding commit
commit-err ls ls' (ok (ls'', b')) e h = ground arith
commit-err ls ls' (err e') e h = ground arith
