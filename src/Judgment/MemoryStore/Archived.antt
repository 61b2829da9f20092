-- ===== src/Judgment/MemoryStore/Archived.antt =====
-- judgment/application/memory_store.py: the archive and its index.
use mathlib.Core.Option
use unknown_file_threat_agen.Prelude.Dict.{Dict, lookup, insert, lookup-insert}
use unknown_file_threat_agen.Shared.Json.{Json}
use unknown_file_threat_agen.Judgment.MemoryStore.{
  RoundRecord, Block, IndexEntry, MemoryStore, set_default, index_records, next_handle,
  record_archive, get_archive, RawRecord, raw_record, get_raw, total_rounds, stats,
}
use unknown_file_threat_agen.Prelude.{
  ℕ, suc, ◌+◌, ◌≤◌, ◌<◌, String, ◌≡◌, refl, sym, ap, ◌∙◌, inl, inr, Bool, true, false, Option, none,
  some, List, [], ◌∷◌, arith, ◌==◌, eq_iff, if◌then◌else◌, Bool-cases, Option-cases, length,
  str_refl,
}

-- the first of two answers
abbrev pub or_some {ℓ} : {V : Type ℓ} → Option V → Option V → Option V
or_some none other = other
or_some (some v) other = some v

or_some-none {ℓ} : {V : Type ℓ} (o : Option V) → or_some o none ≡ o
or_some-none none = refl
or_some-none (some w) = refl

lookup-set_default {ℓ} :
    {V : Type ℓ} (j k : String) (v : V) (d : Dict V)
    → lookup j (set_default k v d) ≡ or_some (lookup j d) (if j == k then some v else none)
unfolding set_default
lookup-set_default j k v d = elim (Option-cases (lookup k d)) [
  | inl e ↦
      rw (e, set_default, lookup-insert j k v d)
        (elim (Bool-cases (j == k)) [
          | inl same ↦ rw (same, (eq_iff j k).0 same, e) refl
          | inr other ↦ rw other (sym (or_some-none (lookup j d)))
        ])
  | inr (w, e) ↦
      rw (e, set_default)
        (elim (Bool-cases (j == k)) [
          | inl same ↦ rw (same, (eq_iff j k).0 same, e) refl
          | inr other ↦ rw other (sym (or_some-none (lookup j d)))
        ])
]

module _ (handle_of : ℕ → String) where
  -- the blocks are those of the handles from `k` on
  abbrev pub IsFrom : ℕ → Dict Block → Type 0
  IsFrom k [] = Unit
  IsFrom k ((handle, block) ∷ rest) =
      (handle ≡ handle_of k) × (block.archive_id ≡ handle_of k) × IsFrom (suc k) rest

module _ (handle_of : ℕ → String) (distinct : (m n : ℕ) → handle_of m ≡ handle_of n → m ≡ n) where
  differs : (m n : ℕ) → m < n → (handle_of n == handle_of m) ≡ false
  differs m n lt = ground (arith, eq_iff (handle_of n) (handle_of m), distinct m n)

  lookup-fresh :
      (k m : ℕ) (blocks : Dict Block)
      → IsFrom handle_of k blocks
      → k + length blocks ≤ m
      → lookup (handle_of m) blocks ≡ none
  unfolding lookup
  lookup-fresh k m [] h far = refl
  lookup-fresh k m ((handle, block) ∷ rest) h far =
      ground
        (arith, h.0, eq_iff (handle_of m) handle, distinct m k, lookup-fresh (suc k) m rest h.2)

  insert-IsFrom :
      (k m : ℕ) (block : Block) (blocks : Dict Block)
      → IsFrom handle_of k blocks
      → m ≡ length blocks + k
      → block.archive_id ≡ handle_of m
      → IsFrom handle_of k (insert (handle_of m) block blocks)
        × (length (insert (handle_of m) block blocks) ≡ length blocks + 1)
        × (total_rounds (insert (handle_of m) block blocks)
            ≡ total_rounds blocks + length block.rounds)
  unfolding insert total_rounds
  insert-IsFrom k m block [] h n e =
      let same : handle_of m ≡ handle_of k = ap handle_of (ground (arith, n)) in
      ((same, e ∙ same, tt), omega arith, omega arith)
  insert-IsFrom k m block ((handle, b) ∷ rest) h n e =
      let later = insert-IsFrom (suc k) m block rest h.2 (ground (arith, n)) e in
      rw (h.0, differs k m (ground (arith, n)))
        ((refl, h.1, later.0), ground (arith, later.1), ground (arith, later.2))

lookup-index_records :
    (j handle : String) (records : Dict Json) (index : Dict IndexEntry)
    → lookup j (index_records handle records index)
      ≡ or_some
          (lookup j index)
          (Option.map (λ r. (record { archive_id = handle; record_json = r })) (lookup j records))
unfolding index_records lookup
lookup-index_records j handle [] index = sym (or_some-none (lookup j index))
lookup-index_records j handle ((k, r) ∷ rest) index =
    rw
      (
        lookup-index_records j handle rest
            (set_default k (record { archive_id = handle; record_json = r }) index),
        lookup-set_default j k (record { archive_id = handle; record_json = r }) index,
      )
      (merge (lookup j index) (j == k))
  where
    merge :
        (o : Option IndexEntry) (same : Bool)
        → or_some
            (or_some o
              (if same then some (record { archive_id = handle; record_json = r }) else none))
            (Option.map (λ r. (record { archive_id = handle; record_json = r })) (lookup j rest))
          ≡ or_some o (
              Option.map
                (λ r. (record { archive_id = handle; record_json = r }))
                (if same then some r else lookup j rest))
    merge none true = refl
    merge none false = refl
    merge (some e) same = refl

-- the archived record of an identifier, as `get_raw` gives it
abbrev pub raw_of : String → String → Json → RawRecord
raw_of record_id handle r = record { record_id = record_id; archive_id = handle; raw = r }

get_raw-record_archive :
    (handle_of : ℕ → String) (summary : String) (span : ℕ × ℕ) (rounds : List RoundRecord)
    (snapshots : List Json) (records : Dict Json) (store : MemoryStore) (j : String)
    → get_raw j (record_archive handle_of summary span rounds snapshots records store)
      ≡ or_some
          (get_raw j store)
          (Option.map (raw_of j (next_handle handle_of store)) (lookup j records))
unfolding get_raw record_archive raw_record
get_raw-record_archive handle_of summary span rounds snapshots records store j =
    ap (raw_record j) (lookup-index_records j (next_handle handle_of store) records store.index)
    ∙ merge (lookup j store.index) (lookup j records)
  where
    merge :
        (o : Option IndexEntry) (r : Option Json)
        → raw_record j (
            or_some o (
              Option.map
                (λ r. (record { archive_id = next_handle handle_of store; record_json = r }))
                r))
          ≡ or_some (raw_record j o) (Option.map (raw_of j (next_handle handle_of store)) r)
    merge none none = refl
    merge none (some r) = refl
    merge (some e) r = refl

module _ (handle_of : ℕ → String) (distinct : (m n : ℕ) → handle_of m ≡ handle_of n → m ≡ n) where
  -- what an archive of these rounds and records does to a store
  pub record IsArchived (rounds : List RoundRecord) (records : Dict Json)
      (before after : MemoryStore) : Type 0 where
    pub ordered : IsFrom handle_of 1 after.blocks
    pub free : get_archive (next_handle handle_of before) before ≡ none
    pub kept :
        (block : Block) × (get_archive (next_handle handle_of before) after ≡ some block)
        × (block.archive_id ≡ next_handle handle_of before)
        × (block.rounds ≡ rounds)
    pub others :
        (h : String)
        → (h == next_handle handle_of before) ≡ false
        → get_archive h after ≡ get_archive h before
    pub records_kept :
        (j : String)
        → get_raw j after
          ≡ or_some
              (get_raw j before)
              (Option.map (raw_of j (next_handle handle_of before)) (lookup j records))
    pub archives : (stats after).archives ≡ (stats before).archives + 1
    pub rounds_archived :
        (stats after).rounds_archived ≡ (stats before).rounds_archived + length rounds

  -- Archiving, with texts of numbers that are distinct, in a store whose blocks have the handles of
  -- 1, 2, … in order: the new handle was free and now gives a block with these rounds; every other
  -- handle gives what it gave; an identifier gives the record that it gave before, and only a new one
  -- gives the record that is archived now; one archive and its rounds are added to the counts; and the
  -- handles stay in order.
  pub record_archive_lem :
      (summary : String) (span : ℕ × ℕ) (rounds : List RoundRecord) (snapshots : List Json)
      (records : Dict Json) (store : MemoryStore)
      → IsFrom handle_of 1 store.blocks
      → IsArchived rounds records store
          (record_archive handle_of summary span rounds snapshots records store)
  unfolding record_archive next_handle get_archive stats
  record_archive_lem summary span rounds snapshots records store h =
      let n = length store.blocks + 1 in
      let block : Block = record {
        archive_id = handle_of n;
        summary = summary;
        round_span = span;
        rounds = rounds;
        snapshots = snapshots;
      } in
      let inserted = insert-IsFrom handle_of distinct 1 n block store.blocks h refl refl in
      let looked = λ (j : String). lookup-insert j (handle_of n) block store.blocks in
      record {
        ordered = inserted.0;
        free = lookup-fresh handle_of distinct 1 n store.blocks h (omega arith);
        kept = (block, looked (handle_of n) ∙ rw (str_refl (handle_of n)) refl, refl, refl);
        others = λ j other. looked j ∙ rw other refl;
        records_kept = get_raw-record_archive handle_of summary span rounds snapshots records store;
        archives = inserted.1;
        rounds_archived = inserted.2;
      }
