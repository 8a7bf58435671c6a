-- ===== src/Journal/Atomic.antt =====
-- src/fs/journal.rs: a transaction of a large write and its commit, with the power cut at some
-- point, then `open`.
use vexfs.Base.{
  ℕ, zero, suc, ◌+◌, ◌^◌, ◌≤◌, ◌<◌, ◌≡◌, ◌⊎◌, inl, inr, refl, List, [], ◌∷◌, ◌++◌, length, take,
  drop, length-append, take_of_length-le, IsU32, IsU64, arith,
}
use vexfs.Disk.Result.{DiskResult, ok}
use vexfs.File.{◌>>=◌}
use vexfs.Journal.{
  Journal, JournalFile, entry_of, log_data_write_all, commit, to_replay, open_journal,
}
use vexfs.Journal.Records.{JournalEntry, journal_payload_size, entry_commit}
use vexfs.Journal.Slots.{IsLogged}
use vexfs.Journal.Recovery.{open_journal-IsLogged}
use vexfs.Journal.Split.{data_entries, EntryFits-entry_of}
use vexfs.Journal.Replay.{Fresh, AllUpdates, IsCommit, to_replay-uncommitted, to_replay-committed}
use vexfs.Journal.Prefix.{
  Lands, Lands-after, Lands-write_entry, Lands-log_data_write_all, take-append_within,
}

pub AllUpdates-data_entries :
    (fuel tx offset : ℕ) (bytes : List ℕ) → AllUpdates tx (data_entries fuel tx offset bytes)
unfolding data_entries
AllUpdates-data_entries fuel tx offset [] = tt
AllUpdates-data_entries zero tx offset (b ∷ bs) = tt
AllUpdates-data_entries (suc fuel) tx offset (b ∷ bs) = (
  (refl, (refl, inr refl)),
  AllUpdates-data_entries fuel tx (offset + length (take journal_payload_size (b ∷ bs)))
      (drop journal_payload_size (b ∷ bs)),
)

AllUpdates-take : (tx n : ℕ) (ds : List JournalEntry) → AllUpdates tx ds → AllUpdates tx (take n ds)
AllUpdates-take tx zero ds h = tt
AllUpdates-take tx (suc n) [] h = tt
AllUpdates-take tx (suc n) (d ∷ ds) (h, hs) = (h, AllUpdates-take tx n ds hs)

-- A prefix of the writes and their commit entry is replayed whole, or not at all.
pub to_replay-prefix :
    (tx k : ℕ) (es ds : List JournalEntry) (c : JournalEntry)
    → Fresh tx es
    → AllUpdates tx ds
    → IsCommit tx c
    → k ≤ length ds + 1
    → ((to_replay (es ++ take k (ds ++ (c ∷ []))) ≡ to_replay es ++ ds) × (k ≡ length ds + 1))
      ⊎ ((to_replay (es ++ take k (ds ++ (c ∷ []))) ≡ to_replay es) × (k ≤ length ds))
to_replay-prefix tx k es ds c fresh updates last h =
    let split : (k ≡ length ds + 1) ⊎ (k ≤ length ds) = omega arith in
    elim split [
      | inl whole ↦ inl (
        (rw (take_of_length-le k (ds ++ (c ∷ [])) (omega (arith, length-append ds (c ∷ []))))
            (to_replay-committed tx es ds c fresh updates last)),
        whole,
      )
      | inr part ↦ inr (
        (rw (take-append_within ds (c ∷ []) k part)
            (to_replay-uncommitted tx es (take k ds) fresh (AllUpdates-take tx k ds updates))),
        part,
      )
    ]

-- What `open` finds after a run, however many of its writes succeeded: all the entries `ds` to
-- replay, or none of them, and all of them when the run reported no error.
pub record IsAtomic {A : Type 0} (crc : List ℕ → ℕ) (run : DiskResult A × JournalFile)
    (es ds : List JournalEntry) : Type 0 where
  pub journal : Journal
  pub found : List JournalEntry
  pub opened : open_journal crc run.1.file ≡ ok (journal, found)
  pub all_or_none : (found ≡ to_replay es ++ ds) ⊎ (found ≡ to_replay es)
  pub durable : (a : A) → run.0 ≡ ok a → found ≡ to_replay es ++ ds

module _ (crc : List ℕ → ℕ) (word : (bytes : List ℕ) → crc bytes < 2 ^ 32) where
  IsAtomic-Lands :
      {A : Type 0} (run : DiskResult A × JournalFile) (tx : ℕ) (es ds : List JournalEntry)
      (c : JournalEntry)
      → Fresh tx es
      → AllUpdates tx ds
      → IsCommit tx c
      → Lands crc run es (ds ++ (c ∷ []))
      → IsAtomic crc run es ds
  IsAtomic-Lands run tx es ds c fresh updates last p =
      let opened = open_journal-IsLogged crc run.1 (es ++ take p.count (ds ++ (c ∷ []))) p.logged in
      let all = length-append ds (c ∷ []) in
      elim (to_replay-prefix tx p.count es ds c fresh updates last (omega (arith, p.bound, all))) [
        | inl (same, whole) ↦ record {
          journal = _;
          found = _;
          opened = opened;
          all_or_none = inl same;
          durable = λ a eq. same;
        }
        | inr (same, part) ↦ record {
          journal = _;
          found = _;
          opened = opened;
          all_or_none = inr same;
          durable = λ a eq. absurd (omega (arith, p.all a eq, all));
        }
      ]

  -- Bytes that are written through the journal and committed under a transaction that no older
  -- entry is of: the journal that `open` then finds hands out all their entries behind the older
  -- ones, or none of them. This holds wherever the writes stop, and all are there when both methods
  -- returned without an error.
  pub log_data_write_all-IsAtomic :
      (tx offset : ℕ) (bytes : List ℕ) (s : JournalFile) (es : List JournalEntry)
      → IsLogged crc s es
      → Fresh tx es
      → IsU32 tx
      → IsU64 (offset + length bytes)
      → IsAtomic crc
          ((log_data_write_all crc tx offset bytes >>= λ _. commit crc tx) s)
          es
          (data_entries (length bytes) tx offset bytes)
  unfolding commit
  log_data_write_all-IsAtomic tx offset bytes s es g fresh t o =
      let ds = data_entries (length bytes) tx offset bytes in
      let c = entry_of entry_commit tx 0 [] in
      let first = Lands-log_data_write_all crc word tx offset bytes s es g t o in
      let r = (log_data_write_all crc tx offset bytes s).0 in
      let s1 = (log_data_write_all crc tx offset bytes s).1 in
      IsAtomic-Lands _ tx es ds c fresh (AllUpdates-data_entries (length bytes) tx offset bytes)
        (record { tx_id = refl; state = refl; entry_type = refl })
        (Lands-after crc r s1 (commit crc tx) es ds (c ∷ []) first (λ here.
          Lands-write_entry crc word c s1 (es ++ ds) here
            (EntryFits-entry_of entry_commit tx 0 [] t (omega arith) (omega arith)) (omega arith)))
