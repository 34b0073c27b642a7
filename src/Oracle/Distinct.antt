-- ===== src/Oracle/Distinct.antt =====
-- A bottommost compaction puts out at most one entry for a user key, and the keys ascend.
use compactor.Prelude.{
  ◌-◌, true, false, Bytes, List, [], ◌∷◌, take, length, All, ◌≡◌, refl, sym, ap, ◌∙◌, subst,
  Bool-cases, inl, inr, map, Ordering, ◌⊎◌, le→ltb,
}
use compactor.Format.Error.{ok}
use compactor.Format.InternalKey.{InternalKey, split}
use compactor.Merge.Cmp.{compare_bytes}
use compactor.Merge.Cmp.Order.{eq_of_compare_bytes}
use compactor.Merge.Source.{KeyValue}
use compactor.Compaction.Strategy.{KeepDecision, keep, drop, bottommost}
use compactor.Compaction.Loop.{Entry, bytes_eq, compacted}
use compactor.Compaction.Loop.Emit.{emit, emit_nil, emit_ok, keep_if, compacted-emit}
use compactor.Compaction.Loop.Bottommost.Behind.{Precedes-users, drops_again}
use compactor.Compaction.Readers.{IsMerged, Precedes, bytes_eq_lem, bytes_eq_refl}
use compactor.Compaction.Whole.Sources.{IsKeyed}
use compactor.Oracle.TreeMap.{AllAbove, Ascending, AllAbove-trans}

abbrev pub user_of : Entry → Bytes
user_of e = take (length e.0 - 8) e.0

-- Fuzzer and tests compare the output without the suffix of its keys.
abbrev pub stripped : List Entry → List KeyValue
stripped = map (λ e. (user_of e, e.1))

-- A key with its suffix splits at it.
pub split_keyed :
    (e : Entry) → IsKeyed e → (ik : InternalKey) × (split e.0 ≡ ok ik) × (ik.user_key ≡ user_of e)
unfolding split
split_keyed e h = rw (le→ltb (length e.0) 8 h) (_, refl, refl)

-- `last` is not above the key.
abbrev UpTo : Bytes → Entry → Type 0
UpTo last e =
    (compare_bytes last (user_of e) ≡ Ordering.lt) ⊎ (compare_bytes last (user_of e) ≡ Ordering.eq)

Precedes-UpTo : (a b : Entry) → IsKeyed a → IsKeyed b → Precedes a b → UpTo (user_of a) b
Precedes-UpTo a b ha hb h =
    let (ia, p, ea) = split_keyed a ha in
    let (ib, q, eb) = split_keyed b hb in rw (ea, eb) at (Precedes-users a b ia ib p q h)

Precedes-UpTo-All :
    (a : Entry) (es : List Entry)
    → IsKeyed a
    → All IsKeyed es
    → All (Precedes a) es
    → All (UpTo (user_of a)) es
Precedes-UpTo-All a [] h hs p = tt
Precedes-UpTo-All a (e ∷ es) ha (h, hs) (p, ps) =
    (Precedes-UpTo a e ha h p, Precedes-UpTo-All a es ha hs ps)

keep_if-Ascending :
    (d : KeepDecision) (e : Entry) (out : List Entry)
    → AllAbove (user_of e) (stripped out)
    → Ascending (stripped out)
    → Ascending (stripped (keep_if d e out))
keep_if-Ascending drop e out h t = t
keep_if-Ascending keep e out h t = (h, t)

keep_if-AllAbove :
    (d : KeepDecision) (last : Bytes) (e : Entry) (out : List Entry)
    → compare_bytes last (user_of e) ≡ Ordering.lt
    → AllAbove (user_of e) (stripped out)
    → AllAbove last (stripped (keep_if d e out))
keep_if-AllAbove drop last e out lt h = AllAbove-trans last (user_of e) (stripped out) lt h
keep_if-AllAbove keep last e out lt h = (lt, AllAbove-trans last (user_of e) (stripped out) lt h)

-- Behind the versions of `last` the emitted user keys are above it.
emit-Ascending :
    (es : List Entry) (last : Bytes)
    → All IsKeyed es
    → IsMerged es
    → All (UpTo last) es
    → AllAbove last (stripped (emit bottommost tt true last es))
      × Ascending (stripped (emit bottommost tt true last es))
emit-Ascending [] last h m b = rw (emit_nil bottommost tt true last) (tt, tt)
emit-Ascending (e ∷ es) last (h, hs) (m, ms) (b, bs) =
    let (ik, p, same) = split_keyed e h in
    let rest = emit bottommost tt true ik.user_key es in
    let (above, asc) = emit-Ascending es (user_of e) hs ms (Precedes-UpTo-All e es h hs m) in
    rw (emit_ok bottommost tt true last e es ik p) (elim (Bool-cases (bytes_eq ik.user_key last)) [
      | inl t ↦
          let again = sym same ∙ bytes_eq_lem ik.user_key last t in
          rw (drops_again last last ik refl t, same)
            (
              subst (λ u. AllAbove u (stripped (emit bottommost tt true (user_of e) es))) again
                  above,
              asc,
            )
      | inr t ↦ elim b [
        | inl lt ↦ rw same (keep_if-AllAbove _ last e _ lt above, keep_if-Ascending _ e _ above asc)
        | inr eq ↦
            let again = eq_of_compare_bytes last (user_of e) eq in
            absurd
              (cc (t, ap (λ (x : Bytes). bytes_eq x last) (same ∙ sym again), bytes_eq_refl last))
      ]
    ])

-- The user keys of what a bottommost compaction puts out are strictly ascending.
pub compacted-Ascending :
    (merged : List Entry)
    → All IsKeyed merged
    → IsMerged merged
    → Ascending (stripped (compacted bottommost tt merged))
compacted-Ascending [] h m =
    rw (compacted-emit bottommost tt [], emit_nil bottommost tt false []) tt
compacted-Ascending (e ∷ es) (h, hs) (m, ms) =
    let (ik, p, same) = split_keyed e h in
    let (above, asc) = emit-Ascending es (user_of e) hs ms (Precedes-UpTo-All e es h hs m) in
    rw (compacted-emit bottommost tt (e ∷ es), emit_ok bottommost tt false [] e es ik p, same)
      (keep_if-Ascending _ e _ above asc)
