-- ===== src/Store/Stats/Totals.antt =====
-- What Store.Stats (store.go) adds up.
use mathlib.Core.List.{append_assoc, append-nil}
use blobs.Base.{
  ℕ, ◌≡◌, refl, ap, ◌∙◌, inl, inr, false, List, [], ◌∷◌, ◌++◌, length, if◌then◌else◌, arith,
  Bool-cases,
}
use blobs.Base.Bytes.{Bytes}
use blobs.Base.Int.{ℤ, pos, ltb_ℤ, ◌+ℤ◌, +ℤ_parts, eq_of_parts}
use blobs.Errors.{Result, ok, is_not_found}
use blobs.Object.{Namespace, NamespaceStats, StoreStats}
use blobs.Index.Tx.{Tx, IsTx}
use blobs.Index.Json.{Json, IsJson}
use blobs.Index.Keys.{stats, key_bytes}
use blobs.Index.Commit.{empty_stats}
use blobs.Index.Commit.WellFormed.{IsIndex}
use blobs.Index.Records.{get_stats}
use blobs.Index.Scan.{list_namespaces}
use blobs.Store.Handle.{Store, begin_op}
use blobs.Store.Stats.{no_stats, add_stats, with_ratio, add_namespaces, store_stats}

abbrev pub sum : (NamespaceStats → ℤ) → List NamespaceStats → ℤ
sum f [] = pos 0
sum f (st ∷ sts) = f st +ℤ sum f sts

add_assoc : (a b c : ℤ) → a +ℤ b +ℤ c ≡ a +ℤ (b +ℤ c)
add_assoc a b c =
    eq_of_parts (a +ℤ b +ℤ c) (a +ℤ (b +ℤ c))
      (omega (arith, +ℤ_parts (a +ℤ b) c, +ℤ_parts a (b +ℤ c), +ℤ_parts a b, +ℤ_parts b c))

zero_add : (a : ℤ) → pos 0 +ℤ a ≡ a
zero_add a = eq_of_parts (pos 0 +ℤ a) a (omega (arith, +ℤ_parts (pos 0) a))

add_zero : (a : ℤ) → a +ℤ pos 0 ≡ a
add_zero a = eq_of_parts (a +ℤ pos 0) a (omega (arith, +ℤ_parts a (pos 0)))

-- The total of a loop that adds at the end.
sum-step :
    (f : NamespaceStats → ℤ) (a : ℤ) (st : NamespaceStats) (sts : List NamespaceStats)
    → a +ℤ f st +ℤ sum f sts ≡ a +ℤ sum f (st ∷ sts)
sum-step f a st sts = add_assoc a (f st) (sum f sts)

-- The totals behind further namespaces.
abbrev with_totals : {F : Type 0} → StoreStats F → List NamespaceStats → StoreStats F
with_totals out sts = record out {
  per_namespace = out.per_namespace ++ sts;
  total_blob_count = out.total_blob_count +ℤ sum (λ st. st.blob_count) sts;
  total_bytes_stored = out.total_bytes_stored +ℤ sum (λ st. st.bytes_stored) sts;
  total_bytes_physical = out.total_bytes_physical +ℤ sum (λ st. st.bytes_physical) sts;
  total_dead_bytes = out.total_dead_bytes +ℤ sum (λ st. st.dead_bytes) sts;
  segment_count = out.segment_count +ℤ sum (λ st. st.segment_count) sts;
}

with_totals-nil : {F : Type 0} (out : StoreStats F) → out ≡ with_totals out []
with_totals-nil out =
    let a = append-nil out.per_namespace in
    let b = add_zero out.total_blob_count in
    let c = add_zero out.total_bytes_stored in
    let d = add_zero out.total_bytes_physical in
    let e = add_zero out.total_dead_bytes in let f = add_zero out.segment_count in cc

with_totals-add_stats :
    {F : Type 0} (out : StoreStats F) (st : NamespaceStats) (sts : List NamespaceStats)
    → with_totals (add_stats st out) sts ≡ with_totals out (st ∷ sts)
unfolding add_stats
with_totals-add_stats out st sts =
    let a = append_assoc out.per_namespace (st ∷ []) sts in
    let b = sum-step (λ x. x.blob_count) out.total_blob_count st sts in
    let c = sum-step (λ x. x.bytes_stored) out.total_bytes_stored st sts in
    let d = sum-step (λ x. x.bytes_physical) out.total_bytes_physical st sts in
    let e = sum-step (λ x. x.dead_bytes) out.total_dead_bytes st sts in
    let f = sum-step (λ x. x.segment_count) out.segment_count st sts in cc

abbrev ratio_of : {F : Type 0} → (ℤ → ℤ → F) → StoreStats F → F
ratio_of ratio out =
    if ltb_ℤ (pos 0) out.total_bytes_physical
    then ratio out.total_bytes_stored out.total_bytes_physical
    else out.deduplication_ratio

with_ratio_lem :
    {F : Type 0} (ratio : ℤ → ℤ → F) (out : StoreStats F)
    → with_ratio ratio out ≡ record out { deduplication_ratio = ratio_of ratio out }
unfolding with_ratio
with_ratio_lem ratio out = elim (Bool-cases (ltb_ℤ (pos 0) out.total_bytes_physical)) [
  | inl e ↦ rw e refl
  | inr e ↦ rw e refl
]

module _ {S V : Type 0} {tx : Tx S V} {json : Json V} (t : IsTx tx) (j : IsJson json) where
  get_stats-total :
      (id : Bytes) (s : S)
      → IsIndex t j s
      → (st : NamespaceStats) × (get_stats tx json id s ≡ ok st) × (st.namespace_id ≡ id)
  unfolding get_stats is_not_found
  get_stats-total id s w = elim (w (stats id) tt) [
    | inl e ↦ (empty_stats id, rw (t.get_none (key_bytes (stats id)) s e, get_stats) refl, refl)
    | inr (st, e, own) ↦ (
      st,
      rw (t.get_some (key_bytes (stats id)) s (j.stats_doc st) e, get_stats)
          (j.unmarshals_stats st),
      own,
    )
  ]

  -- What GetStats gives for each of the namespaces.
  abbrev pub AreStats : S → List Namespace → List NamespaceStats → Type 0
  AreStats s [] [] = Unit {0}
  AreStats s (n ∷ ns) (st ∷ sts) = (get_stats tx json n.id s ≡ ok st) × AreStats s ns sts
  AreStats s _ _ = ⊥

  add_namespaces-totals :
      {F : Type 0} (ns : List Namespace) (s : S) (out : StoreStats F)
      → IsIndex t j s
      → (sts : List NamespaceStats) × (add_namespaces tx json ns s out ≡ ok (with_totals out sts))
        × AreStats s ns sts
  unfolding add_namespaces
  add_namespaces-totals [] s out w = ([], ap ok (with_totals-nil out), tt)
  add_namespaces-totals (n ∷ ns) s out w =
      let (st, got, own) = get_stats-total n.id s w in
      let (sts, rest, same) = add_namespaces-totals ns s (add_stats st out) w in
      (
        st ∷ sts,
        rw (got, add_namespaces) (rest ∙ ap ok (with_totals-add_stats out st sts)),
        (got, same),
      )

  -- Stats of an open store whose index is well-formed, where the namespaces can be listed,
  -- succeeds: it counts the namespaces, gives what GetStats gives for each in their order, each
  -- of its totals is the sum over them, and the ratio is that of the bytes stored to the physical
  -- bytes, or zero where there are none of these.
  pub store_stats_lem :
      {E F : Type 0} (zero : F) (ratio : ℤ → ℤ → F) (now : ℕ) (scan : Bytes → S → Result (List V))
      (st : Store S E) (namespaces : List Namespace)
      → st.is_closed ≡ false
      → IsIndex t j st.index
      → list_namespaces tx json scan st.index ≡ ok namespaces
      → (out : StoreStats F) × (store_stats tx json zero ratio now scan st ≡ ok out)
        × AreStats st.index namespaces out.per_namespace
        × (out.namespace_count ≡ length namespaces)
        × (out.total_blob_count ≡ sum (λ x. x.blob_count) out.per_namespace)
        × (out.total_bytes_stored ≡ sum (λ x. x.bytes_stored) out.per_namespace)
        × (out.total_bytes_physical ≡ sum (λ x. x.bytes_physical) out.per_namespace)
        × (out.total_dead_bytes ≡ sum (λ x. x.dead_bytes) out.per_namespace)
        × (out.segment_count ≡ sum (λ x. x.segment_count) out.per_namespace)
        × (out.deduplication_ratio ≡ (
            if ltb_ℤ (pos 0) out.total_bytes_physical
            then ratio out.total_bytes_stored out.total_bytes_physical
            else zero))
  unfolding store_stats begin_op no_stats
  store_stats_lem zero ratio now scan st namespaces o w listed =
      let start = no_stats zero (length namespaces) now in
      let (sts, run, same) = add_namespaces-totals namespaces st.index start w in
      let all = with_totals start sts in
      let total : (f : NamespaceStats → ℤ) → pos 0 +ℤ sum f sts ≡ sum f sts =
        λ f. zero_add (sum f sts) in
      (
        record all { deduplication_ratio = ratio_of ratio all },
        rw (o, listed, run) (ap ok (with_ratio_lem ratio all)),
        same,
        refl,
        total (λ x. x.blob_count),
        total (λ x. x.bytes_stored),
        total (λ x. x.bytes_physical),
        total (λ x. x.dead_bytes),
        total (λ x. x.segment_count),
        refl,
      )
