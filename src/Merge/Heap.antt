-- ===== src/Merge/Heap.antt =====
-- crates/compactor/src/merge/merger.rs, `HeapMerger`. A `BinaryHeap` is the list of its entries, in
-- no order: all that is used of it is that `pop` takes an entry that no other one exceeds. `none` is
-- a panic; the callback of `run` is a function on a state `S`.
pub mod Pop
pub mod Ready
pub mod Start
pub mod Merging
use compactor.Prelude.{
  ℕ, zero, suc, ◌+◌, Bool, true, false, Bytes, List, [], ◌∷◌, Option, none, some, ◌>>=◌, get_elem?,
  set, Ordering,
}
use compactor.Merge.Cmp.{KeyComparator, compare_with_prefix}
use compactor.Merge.Source.{KeyValue, MergeSource}

pub record HeapEntry : Type 0 where
  pub source_idx : ℕ
  pub key : Bytes

pub record HeapMerger (src : MergeSource) : Type 0 where
  pub sources : List src.State
  pub heap : List HeapEntry

-- Reversed, so that the smallest key is on top.
unfoldable pub entry_cmp : KeyComparator → HeapEntry → HeapEntry → Option Ordering
entry_cmp c self other = compare_with_prefix c other.key self.key

-- `e` against the greatest of the entries `heap`, with the others of them.
unfoldable pub greater_of :
    KeyComparator
    → HeapEntry
    → List HeapEntry
    → Option (HeapEntry × List HeapEntry)
    → Option (HeapEntry × List HeapEntry)
greater_of c e heap none = some (e, heap)
greater_of c e heap (some (top, rest)) = do
  order ← entry_cmp c top e
  some (elim order [ Ordering.gt ↦ (top, e ∷ rest) | _ ↦ (e, heap) ])

unfoldable pub pop : KeyComparator → List HeapEntry → Option (Option (HeapEntry × List HeapEntry))
pop c [] = some none
pop c (e ∷ heap) = do top ← pop c heap; found ← greater_of c e heap top; some (some found)

-- `if let Some((k, _)) = …peek() { heap.push(…) }`
unfoldable pub push_front : ℕ → Option KeyValue → List HeapEntry → List HeapEntry
push_front idx none heap = heap
push_front idx (some (k, _)) heap = record { source_idx = idx; key = k } ∷ heap

module _ (src : MergeSource) where
  -- The loop of `new`, from source `idx` on.
  unfoldable pub push_fronts : ℕ → List src.State → List HeapEntry → Option (List HeapEntry)
  push_fronts idx [] heap = some heap
  push_fronts idx (s ∷ sources) heap = do
    front ← src.peek s
    push_fronts (idx + 1) sources (push_front idx front heap)

  unfoldable pub new_heap_merger : List src.State → Option (HeapMerger src)
  new_heap_merger sources = do
    heap ← push_fronts 0 sources []
    some (record { sources = sources; heap = heap })

  -- A round of `run`, behind the `pop`: what the callback is called with, and the merger.
  unfoldable pub next_entry :
      List src.State → ℕ → List HeapEntry → Option (KeyValue × HeapMerger src)
  next_entry sources source_idx heap = do
    s ← get_elem? sources source_idx
    front ← src.peek s
    entry ← front
    front' ← src.peek (src.advance s)
    some (
      entry,
      record {
        sources = set sources source_idx (src.advance s);
        heap = push_front source_idx front' heap;
      },
    )

  module _ (c : KeyComparator) {S : Type 0} (f : S → Bytes → Bytes → S) where
    -- The `while let`, with fuel; the flag tells that it ended within it.
    unfoldable pub run_heap : ℕ → HeapMerger src → S → Option (S × Bool)
    run_heap zero m st = some (st, false)
    run_heap (suc fuel) m st = do
      top ← pop c m.heap
      elim top [
        | none ↦ some (st, true)
        | some (e, rest) ↦ do
          ((k, v), m') ← next_entry m.sources e.source_idx rest
          run_heap fuel m' (f st k v)
      ]

    unfoldable pub heap_merge_all : ℕ → List src.State → S → Option (S × Bool)
    heap_merge_all fuel sources st = do m ← new_heap_merger sources; run_heap fuel m st
