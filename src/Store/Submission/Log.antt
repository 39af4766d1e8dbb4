-- ===== src/Store/Submission/Log.antt =====
-- A submission leaves the event logs gapless.
use lite_harness.Common.{◌≡◌, String, false, none, List, [], ◌∷◌, arith, refl, any, find_by, ◌==◌}
use lite_harness.Store.Rows.{RunRow}
use lite_harness.Store.Tables.{run_id_of}

pub free_id :
    (id : String) (rows : List RunRow)
    → any (λ r. r.id == id) rows ≡ false
    → find_by run_id_of id rows ≡ none
free_id id [] h = refl
free_id id (r ∷ rows) h = ground (arith, free_id id rows)
