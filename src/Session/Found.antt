-- ===== src/Session/Found.antt =====
-- `ok_or` where it succeeds, for an error that is none of its results.
use rings_node.Base.{◌≡◌, ◌≢◌, ap, Option, none, some}
use rings_node.Error.{Result, ok, ok-inj}
use rings_node.Session.{ok_or}

pub ok_or-some :
    {A : Type 0} (o : Option A) (e : Result A) (a : A)
    → ((b : A) → e ≢ ok b)
    → ok_or o e ≡ ok a
    → o ≡ some a
ok_or-some none e a h q = absurd (h a q)
ok_or-some (some b) e a h q = ap some (ok-inj q)
