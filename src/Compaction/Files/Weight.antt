-- ===== src/Compaction/Files/Weight.antt =====
-- The output of a compaction does not weigh more than its sources.
use mathlib.Core.List.{Permᴰ}
use compactor.Prelude.{◌≤◌, ◌≡◌, refl, ◌∙◌, List, arith}
use compactor.Format.SstBuilder.Written.{weight}
use compactor.Merge.Source.{KeyValue}
use compactor.Compaction.Loop.{Entry, compacted}
use compactor.Compaction.Loop.Order.{compacted_rule}
use compactor.Compaction.Strategy.{CompactionStrategy}

pub weight-perm : {xs ys : List KeyValue} → Permᴰ xs ys → weight xs ≡ weight ys
weight-perm Permᴰ.nil = refl
weight-perm (Permᴰ.cons {b} e p) = rw e (omega (arith, weight-perm p))
weight-perm (Permᴰ.swap e e') = rw (e, e') (omega arith)
weight-perm (Permᴰ.trans p q) = weight-perm p ∙ weight-perm q

pub weight-compacted :
    (strat : CompactionStrategy) (s : strat.State) (merged : List Entry)
    → weight (compacted strat s merged) ≤ weight merged
weight-compacted strat s merged =
    compacted_rule strat (λ es out. weight out ≤ weight es) (omega arith)
      (λ e es out h. omega (arith, h)) (λ e es out h. omega (arith, h)) s merged
