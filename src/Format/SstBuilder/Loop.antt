-- ===== src/Format/SstBuilder/Loop.antt =====
-- The loop of `build_sst` over the entries: where they are after each step.
use compactor.Prelude.{
  ◌+◌, ◌^◌, ◌≤◌, ◌<◌, ◌≡◌, refl, sym, ap, ◌∙◌, Bytes, List, [], ◌∷◌, ◌++◌, Option, some, none,
  length, length-append, append_assoc, append-nil, leb, arith, Bool-cases, inl, inr, subst,
  Option-cases,
}
use compactor.Prelude.Bits.{u64}
use compactor.Format.Block.RoundTrip.{fresh, new-fresh}
use compactor.Format.Block.Holds.{IsFilled, add_all-IsFilled, add-IsFilled}
use compactor.Format.BlockBuilder.{current_size_estimate}
use compactor.Format.BlockBuilder.Encoding.{add_all}
use compactor.Format.Checksum.{Hashes}
use compactor.Format.IndexBlock.{IndexBlockBuilder}
use compactor.Format.IndexBlock.Encoding.{IndexEntry}
use compactor.Format.IndexBlock.Holds.{index_room}
use compactor.Format.SstBuilder.Build.{
  SstBuilderOptions, Assembly, add_to_file, add_all_to_file, flush_pending, target_block_size,
}
use compactor.Format.SstBuilder.Written.{
  IsWritten, flush_data_block-IsWritten, weight, weight-append, weight-Fits,
}
use compactor.Merge.Source.{KeyValue}
use compactor.Merge.Streams.{all_entries}

all_entries-snoc :
    (ess : List (List KeyValue)) (es : List KeyValue)
    → all_entries (ess ++ es ∷ []) ≡ all_entries ess ++ es
all_entries-snoc [] es = append-nil es
all_entries-snoc (x ∷ ess) es =
    ap (◌++◌ x) (all_entries-snoc ess es) ∙ sym (append_assoc x (all_entries ess) es)

-- The key that is pending is that of the last entry in the open block.
abbrev IsPending : Option Bytes → List KeyValue → Type 0
IsPending none cur = cur ≡ []
IsPending (some key) cur = (es : List KeyValue) × (value : Bytes) × (cur ≡ es ++ (key, value) ∷ [])

pub fresh-IsFilled : IsFilled 16 [] (fresh 16)
unfolding add_all
fresh-IsFilled =
    let (b, t) = add_all-IsFilled 16 [] (omega arith) tt (omega arith) in
    let same : fresh 16 ≡ b = cc t.taken in subst (IsFilled 16 []) (sym same) t

module _ (hashes : Hashes) (opts : SstBuilderOptions) where
  pub record IsAssembled (st : Assembly) (done : List KeyValue) : Type 1 where
    pub hs : List IndexEntry
    pub ess : List (List KeyValue)
    pub cur : List KeyValue
    pub pending : IsPending st.pending_last_key cur
    pub filled : IsFilled 16 cur st.block_builder
    pub written : IsWritten hashes opts st.file st.index_builder hs ess
    pub all_done : all_entries ess ++ cur ≡ done
    pub small : length st.file + index_room hs + weight cur ≤ weight done

  pub add_to_file-IsAssembled :
      (st : Assembly) (done : List KeyValue) (key value : Bytes)
      → IsAssembled st done
      → weight (done ++ (key, value) ∷ []) < 2 ^ 31
      → (st' : Assembly) × (add_to_file hashes opts st (key, value) ≡ some st')
        × IsAssembled st' (done ++ (key, value) ∷ [])
  unfolding add_to_file
  add_to_file-IsAssembled st done key value t h =
      let e : List KeyValue = (key, value) ∷ [] in
      let heavy = weight-append done e in
      let cur_heavy = weight-append t.cur e in
      let (fits, few) = weight-Fits (t.cur ++ e) (omega (arith, heavy, cur_heavy, t.small)) in
      let n = length-append t.cur e in
      let (bb, added, filled) =
        add-IsFilled 16 t.cur st.block_builder key value t.filled (omega arith) fits
          (omega (arith, few, n, heavy, cur_heavy, t.small)) in
      let key_size = u64 (st.raw_key_size + length key) in
      let value_size = u64 (st.raw_value_size + length value) in
      let all = ap (λ (x : List KeyValue). x ++ e) t.all_done in
      elim (Bool-cases (leb target_block_size (current_size_estimate bb))) [
        | inl full ↦
            let (file, b, hdl, flushed, written, less) =
              flush_data_block-IsWritten hashes opts st.file st.index_builder t.hs t.ess bb t.cur
                key value t.written filled (omega (arith, heavy, cur_heavy, t.small)) in
            (
              record {
                file = file;
                index_builder = b;
                block_builder = fresh 16;
                pending_last_key = none;
                raw_key_size = key_size;
                raw_value_size = value_size;
              },
              rw (added, full, new-fresh 16 (omega arith), flushed) refl,
              record {
                hs = t.hs ++ (key, hdl) ∷ [];
                ess = t.ess ++ (t.cur ++ e) ∷ [];
                cur = [];
                pending = refl;
                filled = fresh-IsFilled;
                written = written;
                all_done =
                    append-nil (all_entries (t.ess ++ (t.cur ++ e) ∷ []))
                    ∙ all_entries-snoc t.ess (t.cur ++ e)
                    ∙ sym (append_assoc (all_entries t.ess) t.cur e)
                    ∙ all;
                small = omega (arith, less, heavy, cur_heavy, t.small);
              },
            )
        | inr room_left ↦ (
          record st {
            block_builder = bb;
            pending_last_key = some key;
            raw_key_size = key_size;
            raw_value_size = value_size;
          },
          rw (added, room_left) refl,
          record {
            hs = t.hs;
            ess = t.ess;
            cur = t.cur ++ e;
            pending = (t.cur, value, refl);
            filled = filled;
            written = t.written;
            all_done = sym (append_assoc (all_entries t.ess) t.cur e) ∙ all;
            small = omega (arith, heavy, cur_heavy, t.small);
          },
        )
      ]

  pub add_all_to_file-IsAssembled :
      (entries : List KeyValue) (st : Assembly) (done : List KeyValue)
      → IsAssembled st done
      → weight (done ++ entries) < 2 ^ 31
      → (st' : Assembly) × (add_all_to_file hashes opts st entries ≡ some st')
        × IsAssembled st' (done ++ entries)
  unfolding add_all_to_file
  add_all_to_file-IsAssembled [] st done t h =
      (st, refl, subst (IsAssembled st) (sym (append-nil done)) t)
  add_all_to_file-IsAssembled ((key, value) ∷ entries) st done t h =
      let same = append_assoc done ((key, value) ∷ []) entries in
      let (st₁, e₁, t₁) = add_to_file-IsAssembled st done key value t (
        omega (
          arith,
          weight-append done ((key, value) ∷ entries),
          weight-append done ((key, value) ∷ []),
        )) in
      let (st₂, e₂, t₂) =
        add_all_to_file-IsAssembled entries st₁ (done ++ (key, value) ∷ []) t₁ (rw same h) in
      (st₂, rw e₁ e₂, subst (IsAssembled st₂) same t₂)

  -- All the entries, in the blocks that are in the file.
  pub flush_pending-IsWritten :
      (st : Assembly) (done : List KeyValue)
      → IsAssembled st done
      → weight done < 2 ^ 31
      → (file : Bytes) × (b : IndexBlockBuilder) × (hs : List IndexEntry) × (ess : List
          (List KeyValue))
        × (flush_pending hashes opts st ≡ some (file, b))
        × IsWritten hashes opts file b hs ess
        × (all_entries ess ≡ done)
        × (length file + index_room hs ≤ weight done)
  unfolding flush_pending
  flush_pending-IsWritten st done t h = elim (Option-cases st.pending_last_key) [
    | inl e ↦
        let empty : t.cur ≡ [] = rw e at t.pending in
        (
          st.file,
          st.index_builder,
          t.hs,
          t.ess,
          rw e refl,
          t.written,
          sym (append-nil (all_entries t.ess)) ∙ rw empty at t.all_done,
          omega (arith, t.small),
        )
    | inr (key, e) ↦
        let (es, value, same) : IsPending (some key) t.cur = rw e at t.pending in
        let filled = rw same at t.filled in
        let (file, b, hdl, flushed, written, less) =
          flush_data_block-IsWritten hashes opts st.file st.index_builder t.hs t.ess
            st.block_builder es key value t.written filled
            (omega (arith, t.small, ap weight same)) in
        (
          file,
          b,
          t.hs ++ (key, hdl) ∷ [],
          t.ess ++ (es ++ (key, value) ∷ []) ∷ [],
          rw (e, flushed) refl,
          written,
          all_entries-snoc t.ess (es ++ (key, value) ∷ []) ∙ rw same at t.all_done,
          omega (arith, less, t.small, ap weight same),
        )
  ]
