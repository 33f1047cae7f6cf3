-- ===== src/Semantic/Versions/Diff.antt =====
-- The diff of two snapshots names exactly the fields that differ.
use atlas_sql.Common.{
  String, false, ◌||◌, Option, none, some, List, [], ◌∷◌, ◌++◌, ◌≡◌, refl, sym, ◌∙◌, arith, eq_iff,
  ◌==◌, string_eq, if◌then◌else◌, contains, contains-any, contains-append, contains-dedup, any-sort,
  dedup, lookup, text_leb,
}
use atlas_sql.Semantic.Models.{Json, null}
use atlas_sql.Semantic.Versions.{
  Snapshot, keys, all_keys, json_beq, get_or_null, diff_keys, diff_snapshots,
}

contains-all_keys :
    (a b : Snapshot) (k : String)
    → contains (all_keys a b) k ≡ (contains (keys a) k || contains (keys b) k)
unfolding all_keys
contains-all_keys a b k =
    contains-any _ k
    ∙ any-sort text_leb (λ x. x == k) (dedup (keys a ++ keys b))
    ∙ sym (contains-any _ k)
    ∙ contains-dedup (keys a ++ keys b) k
    ∙ contains-append (keys a) (keys b) k

-- A key that a snapshot lacks reads as null.
get_or_null-absent :
    (s : Snapshot) (k : String) → contains (keys s) k ≡ false → get_or_null s k ≡ null
unfolding get_or_null lookup
get_or_null-absent [] k h = refl
get_or_null-absent ((j, v) ∷ s) k h = ground (arith, get_or_null-absent s k)

-- What the diff says of a field, in terms of the two snapshots alone.
unfoldable pub change : Snapshot → Snapshot → String → Option (Json × Json)
change a b k =
    if k == "snapshot_at" || json_beq (get_or_null a k) (get_or_null b k)
    then none
    else some (get_or_null a k, get_or_null b k)

lookup-diff_keys :
    (a b : Snapshot) (ks : List String) (k : String)
    → lookup k (diff_keys a b ks) ≡ (if contains ks k then change a b k else none)
unfolding diff_keys lookup change
lookup-diff_keys a b [] k = refl
lookup-diff_keys a b (j ∷ ks) k = ground (arith, lookup-diff_keys a b ks k, eq_iff j k)

-- A field that neither snapshot has is no change.
change-absent :
    (a b : Snapshot) (k : String)
    → (contains (keys a) k || contains (keys b) k) ≡ false
    → change a b k ≡ none
unfolding change json_beq
change-absent a b k h = ground (arith, get_or_null-absent a k, get_or_null-absent b k)

-- The diff of two snapshots holds a field exactly where the two values differ (a field that one of
-- them lacks counts as null), with both values, and never the time of the snapshot.
pub lookup-diff_snapshots :
    (a b : Snapshot) (k : String) → lookup k (diff_snapshots a b) ≡ change a b k
unfolding diff_snapshots
lookup-diff_snapshots a b k =
    lookup-diff_keys a b (all_keys a b) k
    ∙ rw contains-all_keys (ground (arith, change-absent a b k))
