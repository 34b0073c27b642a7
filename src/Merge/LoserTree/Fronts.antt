-- ===== src/Merge/LoserTree/Fronts.antt =====
-- The order of the front elements of the sources: an exhausted source is behind all others.
use compactor.Prelude.{Bool, true, false, Bytes, Option, none, some, ◌≡◌, refl, Ordering, arith}
use compactor.Merge.Cmp.{KeyComparator, compare_with_prefix}
use compactor.Merge.Cmp.Order.{opposite}
use compactor.Merge.Source.{KeyValue}
use compactor.Merge.LoserTree.{is_less, less_front}

-- What a merge asks of a comparator on the keys that `Valid` names: it answers, by its prefix or
-- without, as a total order does. Equal keys need not be the same.
pub record IsOrder (c : KeyComparator) (Valid : Bytes → Type 0) : Type 0 where
  pub order : Bytes → Bytes → Ordering
  pub answers : (a b : Bytes) → Valid a → Valid b → compare_with_prefix c a b ≡ some (order a b)
  pub swap : (a b : Bytes) → order b a ≡ opposite (order a b)
  pub trans :
      (a b x : Bytes)
      → is_less (order b a) ≡ false
      → is_less (order x b) ≡ false
      → is_less (order x a) ≡ false

module _ {c : KeyComparator} {Valid : Bytes → Type 0} (o : IsOrder c Valid) where
  -- `a` is strictly before `b`.
  abbrev pub before : Option KeyValue → Option KeyValue → Bool
  before (some a) (some b) = is_less (o.order a.0 b.0)
  before (some a) none = true
  before none b = false

  abbrev pub IsValidFront : Option KeyValue → Type 0
  IsValidFront none = Unit
  IsValidFront (some e) = Valid e.0

  pub less_front-before :
      (a b : Option KeyValue)
      → IsValidFront a
      → IsValidFront b
      → less_front c a b ≡ some (before a b)
  unfolding less_front
  less_front-before none b ha hb = refl
  less_front-before (some a) none ha hb = refl
  less_front-before (some a) (some b) ha hb = rw (o.answers a.0 b.0 ha hb) refl

  pub before_asym : (a b : Option KeyValue) → before a b ≡ true → before b a ≡ false
  before_asym none b h = cc
  before_asym (some a) none h = refl
  before_asym (some a) (some b) h = ground (arith, o.swap a.0 b.0)

  -- Not after: `b` is not before `a`.
  pub not_after_trans :
      (a b x : Option KeyValue) → before b a ≡ false → before x b ≡ false → before x a ≡ false
  not_after_trans a b none h h' = refl
  not_after_trans none none (some x) h h' = cc
  not_after_trans none (some b) (some x) h h' = cc
  not_after_trans (some a) none (some x) h h' = cc
  not_after_trans (some a) (some b) (some x) h h' = o.trans a.0 b.0 x.0 h h'
