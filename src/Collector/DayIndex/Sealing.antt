-- ===== src/Collector/DayIndex/Sealing.antt =====
-- What the sealed manifest of a day holds, src/miry/collector/day_index.py.
use miry_data_collector.Base.{
  ℕ, ◌<◌, ◌≡◌, refl, ap, ◌∙◌, inl, inr, Bool, true, false, not, ◌&&◌, ◌||◌, Bool-cases, Option,
  none, some, ◌++◌, map, is_some, List, [], ◌∷◌, leb, ==_refl, any, length, arith,
}
use miry_data_collector.Base.Result.{ok, raise_if, ◌>>◌}
use miry_data_collector.Base.Sorting.{sort_by, insert_by}
use miry_data_collector.Base.Text.{text_eq_iff}
use miry_data_collector.Contracts.Chunks.{
  ChunkRef, DayManifest, same_identity, identity_leb, are_distinct, accepts_day, date_of, as_ref,
}
use miry_data_collector.Collector.DayIndex.{
  DayFiles, DayIndex, manifest_refused, on_day, lines_of, sources, put_ref, put_all, read_refs,
  manifest_for, seal_from, seal, cleaned, with_manifest,
}

-- Some chunk of the list has the identity of `c`.
abbrev pub has_identity : ChunkRef → List ChunkRef → Bool
has_identity c cs = any (same_identity c) cs

same_identity_trans :
    (b c d : ChunkRef) → same_identity b c ≡ true → same_identity c d ≡ same_identity b d
same_identity_trans b c d h =
    ground (arith, text_eq_iff b.chunk_id c.chunk_id, text_eq_iff b.sha256 c.sha256)

same_identity_sym : (c d : ChunkRef) → same_identity c d ≡ same_identity d c
same_identity_sym c d = ground (
  arith,
  text_eq_iff c.chunk_id d.chunk_id,
  text_eq_iff d.chunk_id c.chunk_id,
  text_eq_iff c.sha256 d.sha256,
  text_eq_iff d.sha256 c.sha256,
)

has_identity-put_ref :
    (b c : ChunkRef) (ds : List ChunkRef)
    → has_identity b (put_ref c ds) ≡ (same_identity b c || has_identity b ds)
has_identity-put_ref b c [] = refl
has_identity-put_ref b c (d ∷ ds) = elim (Bool-cases (same_identity d c)) [
  | inl same ↦ ground (
    arith,
    same_identity_trans d c b same,
    same_identity_sym b c,
    same_identity_sym b d,
    same_identity_sym c b,
  )
  | inr other ↦ ground (arith, has_identity-put_ref b c ds)
]

are_distinct-put_ref :
    (c : ChunkRef) (ds : List ChunkRef)
    → are_distinct ds ≡ true
    → are_distinct (put_ref c ds) ≡ true
are_distinct-put_ref c [] h = refl
are_distinct-put_ref c (d ∷ ds) h = elim (Bool-cases (same_identity d c)) [
  | inl same ↦ ground (arith, same, h, any_same ds)
  | inr other ↦ ground (arith, other, h, are_distinct-put_ref c ds, has_identity-put_ref d c ds)
]
  where
    any_same :
        (es : List ChunkRef) → same_identity d c ≡ true → has_identity c es ≡ has_identity d es
    any_same [] same = refl
    any_same (e ∷ es) same = ground (arith, same_identity_trans d c e same, any_same es same)

put_all-are_distinct :
    (cs ds : List ChunkRef) → are_distinct ds ≡ true → are_distinct (put_all cs ds) ≡ true
put_all-are_distinct [] ds h = h
put_all-are_distinct (c ∷ cs) ds h =
    put_all-are_distinct cs (put_ref c ds) (are_distinct-put_ref c ds h)

has_identity-put_all :
    (b : ChunkRef) (cs ds : List ChunkRef)
    → has_identity b (put_all cs ds) ≡ (has_identity b cs || has_identity b ds)
has_identity-put_all b [] ds = refl
has_identity-put_all b (c ∷ cs) ds =
    ground (arith, has_identity-put_all b cs (put_ref c ds), has_identity-put_ref b c ds)

has_identity-insert_by :
    (b c : ChunkRef) (ds : List ChunkRef)
    → has_identity b (insert_by identity_leb c ds) ≡ has_identity b (c ∷ ds)
has_identity-insert_by b c [] = refl
has_identity-insert_by b c (d ∷ ds) = ground (arith, has_identity-insert_by b c ds)

has_identity-sort_by :
    (b : ChunkRef) (ds : List ChunkRef)
    → has_identity b (sort_by identity_leb ds) ≡ has_identity b ds
has_identity-sort_by b [] = refl
has_identity-sort_by b (d ∷ ds) =
    has_identity-insert_by b d (sort_by identity_leb ds)
    ∙ ap (λ x. same_identity b d || x) (has_identity-sort_by b ds)

are_distinct-insert_by :
    (c : ChunkRef) (ds : List ChunkRef)
    → are_distinct (c ∷ ds) ≡ true
    → are_distinct (insert_by identity_leb c ds) ≡ true
are_distinct-insert_by c [] h = refl
are_distinct-insert_by c (d ∷ ds) h =
    ground
      (arith, h, are_distinct-insert_by c ds, has_identity-insert_by d c ds, same_identity_sym c d)

are_distinct-sort_by :
    (ds : List ChunkRef) → are_distinct ds ≡ true → are_distinct (sort_by identity_leb ds) ≡ true
are_distinct-sort_by [] h = refl
are_distinct-sort_by (d ∷ ds) h =
    are_distinct-insert_by d (sort_by identity_leb ds)
      (ground (arith, h, are_distinct-sort_by ds, has_identity-sort_by d ds))

read_refs-are_distinct : (files : DayFiles) → are_distinct (read_refs files) ≡ true
unfolding read_refs
read_refs-are_distinct files =
    are_distinct-sort_by (put_all (sources files.journal files) [])
      (put_all-are_distinct (sources files.journal files) [] refl)

has_identity-read_refs :
    (c : ChunkRef) (files : DayFiles)
    → has_identity c (read_refs files) ≡ has_identity c (sources files.journal files)
unfolding read_refs
has_identity-read_refs c files =
    has_identity-sort_by c (put_all (sources files.journal files) [])
    ∙ has_identity-put_all c (sources files.journal files) []
    ∙ or_false (has_identity c (sources files.journal files))
  where
    or_false : (b : Bool) → (b || false) ≡ b
    or_false true = refl
    or_false false = refl

has_identity-append :
    (c : ChunkRef) (cs ds : List ChunkRef)
    → has_identity c (cs ++ ds) ≡ (has_identity c cs || has_identity c ds)
has_identity-append c [] ds = refl
has_identity-append c (d ∷ cs) ds = ground (arith, has_identity-append c cs ds)

-- Where the manifest of a day has a chunk from.
abbrev pub is_known : ChunkRef → DayFiles → Bool
is_known c files =
    is_some files.journal
    && (has_identity c (lines_of files.journal)
        || (has_identity c (map as_ref files.ready) || has_identity c (map as_ref files.acked)))

has_identity-sources :
    (c : ChunkRef) (journal : Option (List ChunkRef)) (files : DayFiles)
    → has_identity c (sources journal files) ≡ is_known c (record files { journal = journal })
has_identity-sources c none files = refl
has_identity-sources c (some lines) files = ground (
  arith,
  has_identity-append c lines (map as_ref files.ready ++ map as_ref files.acked),
  has_identity-append c (map as_ref files.ready) (map as_ref files.acked),
)

-- A day that is over and not sealed can always be sealed. If the day has a journal, its manifest has
-- every chunk of the journal, of the manifests under ready and of the acknowledged ones, no other
-- chunk, and each identity once; without a journal, it has no chunk. Conditions: the day ends before
-- the sealing, and the collector's id has a length between 1 and 100.
pub seal-ok :
    (date sealed_at : ℕ) (s : DayIndex)
    → (s.days date).sealed ≡ none
    → date < date_of sealed_at
    → (leb 1 (length s.collector_id) && leb (length s.collector_id) 100) ≡ true
    → (s' : DayIndex) × (m : DayManifest) × (seal date sealed_at s ≡ ok s')
      × ((s'.days date).sealed ≡ some m)
      × (are_distinct m.chunks ≡ true)
      × ((c : ChunkRef) → has_identity c m.chunks ≡ is_known c (s.days date))
unfolding seal accepts_day
seal-ok date sealed_at s open_day over named = (
  sealed_day,
  manifest_for date sealed_at s,
  ap (λ o. seal_from o date sealed_at s) open_day
      ∙ ap (λ b. raise_if (not b) manifest_refused >> ok sealed_day) accepted,
  rw (==_refl date) refl,
  read_refs-are_distinct (s.days date),
  λ c.
      has_identity-read_refs c (s.days date)
      ∙ has_identity-sources c (s.days date).journal (s.days date),
)
  where
    sealed_day : DayIndex
    sealed_day =
        on_day date (cleaned (with_manifest (manifest_for date sealed_at s) (s.days date))) s

    accepted : accepts_day (manifest_for date sealed_at s) ≡ true
    accepted = ground (arith, read_refs-are_distinct (s.days date), over, named)
