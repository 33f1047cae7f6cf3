-- ===== src/Semantic/Versions.antt =====
-- server/semantic/lifecycle.py: get_version_diff and list_versions, the reads of the history.
pub mod Diff
pub mod Listing
use atlas_sql.Common.{
  ℕ, String, Bool, true, false, not, ◌&&◌, Option, none, some, List, [], ◌∷◌, ◌++◌, map, ◌==◌,
  string_eq, nat_eq, if◌then◌else◌, contains, dedup, filter, any, find, sort, text_leb, lookup, leb,
}
use atlas_sql.Semantic.Models.{
  MetricVersion, Db, Json, null, bool, text, texts, time, names_version,
}
use atlas_sql.Semantic.Lifecycle.{
  Result, ok, err, missing_versions, ◌>>=◌, ◌>>◌, require, is_version_of,
}

abbrev bool_beq : Bool → Bool → Bool
bool_beq true b = b
bool_beq false b = not b

abbrev texts_beq : List String → List String → Bool
texts_beq [] [] = true
texts_beq (x ∷ xs) (y ∷ ys) = x == y && texts_beq xs ys
texts_beq _ _ = false

-- val_a == val_b
unfoldable pub json_beq : Json → Json → Bool
json_beq null null = true
json_beq (bool a) (bool b) = bool_beq a b
json_beq (text s) (text t) = s == t
json_beq (texts s) (texts t) = texts_beq s t
json_beq (time a) (time b) = a == b
json_beq _ _ = false

abbrev pub Snapshot : Type 0
Snapshot = List (String × Json)

-- snap.get(key): None where the key is missing.
unfoldable pub get_or_null : Snapshot → String → Json
get_or_null snap key = elim (lookup key snap) [ none ↦ null | some v ↦ v ]

abbrev pub keys : Snapshot → List String
keys snap = map (λ kv. kv.0) snap

-- sorted(set(snap_a.keys()) | set(snap_b.keys()))
unfoldable pub all_keys : Snapshot → Snapshot → List String
all_keys a b = sort text_leb (dedup (keys a ++ keys b))

-- The loop over the keys. They are distinct, so the dict `diff` grows at its end.
unfoldable pub diff_keys : Snapshot → Snapshot → List String → List (String × (Json × Json))
unfolding json_beq get_or_null
diff_keys a b [] = []
diff_keys a b (key ∷ rest) =
    let later = diff_keys a b rest in
    if key == "snapshot_at"
    then later
    else if json_beq (get_or_null a key) (get_or_null b key)
    then later
    else (key, (get_or_null a key, get_or_null b key)) ∷ later

unfoldable pub diff_snapshots : Snapshot → Snapshot → List (String × (Json × Json))
unfolding all_keys diff_keys
diff_snapshots a b = diff_keys a b (all_keys a b)

abbrev pub snapshot_of : String → ℕ → Db → Option MetricVersion
snapshot_of id n db = find (names_version id n) db.versions

-- [v for v in [version_a, version_b] if v not in versions]
abbrev absent : String → Db → List ℕ → List ℕ
absent id db ns = filter (λ n. not (any (names_version id n) db.versions)) ns

unfoldable pub get_version_diff : String → ℕ → ℕ → Db → Result (List (String × (Json × Json)))
unfolding diff_snapshots
get_version_diff id version_a version_b db = elim (snapshot_of id version_a db) [
  | none ↦ err (missing_versions (absent id db (version_a ∷ version_b ∷ [])))
  | some a ↦ elim (snapshot_of id version_b db) [
    | none ↦ err (missing_versions (absent id db (version_a ∷ version_b ∷ [])))
    | some b ↦ ok (diff_snapshots a.snapshot b.snapshot)
  ]
]

pub record VersionSummary : Type 0 where
  pub version_number : ℕ
  pub published_by : String
  pub published_at : ℕ
  pub change_note : Option String
  pub regression_run_id : Option String

abbrev pub summary : MetricVersion → VersionSummary
summary v = record {
  version_number = v.version_number;
  published_by = v.published_by;
  published_at = v.published_at;
  change_note = v.change_note;
  regression_run_id = v.regression_run_id;
}

abbrev pub by_number : MetricVersion → MetricVersion → Bool
by_number v w = leb v.version_number w.version_number

unfoldable pub list_versions : String → Db → List VersionSummary
list_versions id db = map summary (sort by_number (filter (is_version_of id) db.versions))
