-- ===== src/Semantic/Versions/Listing.antt =====
-- The list of the versions of a metric: in order, and complete.
use atlas_sql.Common.{
  ℕ, String, Bool, List, [], ◌∷◌, map, ◌≡◌, refl, ap, ◌∙◌, arith, All-mapped, IsSorted, sort,
  sort-IsSorted, any, any-sort, filter, leb, ◌==◌, string_eq, nat_eq, ◌||◌,
}
use atlas_sql.Semantic.Models.{MetricVersion, Db, names_version}
use atlas_sql.Semantic.Lifecycle.{is_version_of}
use atlas_sql.Semantic.Versions.{VersionSummary, summary, by_number, list_versions}

abbrev pub earlier : VersionSummary → VersionSummary → Bool
earlier a b = leb a.version_number b.version_number

abbrev pub has_number : ℕ → VersionSummary → Bool
has_number n s = s.version_number == n

IsSorted-summary :
    (vs : List MetricVersion) → IsSorted by_number vs → IsSorted earlier (map summary vs)
IsSorted-summary [] h = tt
IsSorted-summary (v ∷ vs) h = (All-mapped summary _ vs h.0, IsSorted-summary vs h.1)

any-summary :
    (n : ℕ) (vs : List MetricVersion)
    → any (has_number n) (map summary vs) ≡ any (λ v. v.version_number == n) vs
any-summary n [] = refl
any-summary n (v ∷ vs) = ap (λ b. v.version_number == n || b) (any-summary n vs)

any-filter :
    (id : String) (n : ℕ) (vs : List MetricVersion)
    → any (λ v. v.version_number == n) (filter (is_version_of id) vs) ≡ any (names_version id n) vs
any-filter id n [] = refl
any-filter id n (v ∷ vs) = ground (arith, any-filter id n vs)

-- list_versions lists the versions of a metric in the order of their numbers, and a number is in the
-- list exactly if the metric has a version of that number.
pub list_versions-IsSorted :
    (id : String) (db : Db)
    → IsSorted earlier (list_versions id db)
      × ((n : ℕ) → any (has_number n) (list_versions id db) ≡ any (names_version id n) db.versions)
unfolding list_versions
list_versions-IsSorted id db = (
  IsSorted-summary _ (
      sort-IsSorted by_number (λ v w h. ground arith) (λ u v w h k. ground arith)
        (filter (is_version_of id) db.versions)),
  λ n.
      any-summary n (sort by_number (filter (is_version_of id) db.versions))
      ∙ any-sort by_number (λ v. v.version_number == n) (filter (is_version_of id) db.versions)
      ∙ any-filter id n db.versions,
)
