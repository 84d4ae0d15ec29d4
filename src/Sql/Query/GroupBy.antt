-- ===== src/Sql/Query/GroupBy.antt =====
-- The call of `group_by`, whose state is none of the cases of `throw_invalid`.
use oos.Prelude.{◌≡◌, refl, List, [], ◌∷◌, ◌++◌, Option, none, some}
use oos.Prelude.Bytes.{Bytes}
use oos.Prelude.Fallible.{◌>>=◌}
use oos.Sql.Query.{Query, Call, group_by, call, run}

still_none :
    (o : Option Query) (f : Query → Option Query) → ((q : Query) → f q ≡ none) → (o >>= f) ≡ none
still_none none f h = refl
still_none (some q) f h = h q

-- No calls that have a `group_by` among them succeed, whatever the query is before and whatever calls
-- there are before and behind.
pub run-group_by :
    (cs ds : List Call) (name : Bytes) (q : Query) → run (cs ++ group_by name ∷ ds) q ≡ none
unfolding run
run-group_by [] ds name q = refl
run-group_by (c ∷ cs) ds name q =
    still_none (call c q) (λ later. run (cs ++ group_by name ∷ ds) later)
      (λ later. run-group_by cs ds name later)
