-- ===== src/Fuzzer/Sorting.antt =====
-- The sort of a list whose keys ascend already.
use compactor.Prelude.{List, [], ◌∷◌, ◌≡◌, refl, arith}
use compactor.Merge.Cmp.Order.{compare_bytes_swap}
use compactor.Merge.Source.{KeyValue}
use compactor.Oracle.TreeMap.{AllAbove, Ascending}
use compactor.Fuzzer.{compare_pairs, insert_pair, sort_pairs}

insert_pair-AllAbove :
    (e : KeyValue) (out : List KeyValue) → AllAbove e.0 out → insert_pair e out ≡ e ∷ out
unfolding insert_pair compare_pairs
insert_pair-AllAbove e [] h = refl
insert_pair-AllAbove e (x ∷ out) (h, hs) = ground (arith, compare_bytes_swap e.0 x.0, h)

pub sort_pairs-Ascending : (out : List KeyValue) → Ascending out → sort_pairs out ≡ out
unfolding sort_pairs
sort_pairs-Ascending [] h = refl
sort_pairs-Ascending ((k, v) ∷ out) (h, hs) =
    rw (sort_pairs-Ascending out hs) (insert_pair-AllAbove (k, v) out h)
