-- ===== src/Journal/Append.antt =====
-- src/fs/journal.rs: about `write_entry` as an append to the entries on disk.
use vexfs.Base.{
  ℕ, zero, suc, ◌+◌, ◌^◌, ◌≤◌, ◌<◌, ◌≡◌, ◌≢◌, ◌⊎◌, inl, inr, refl, ap, ◌∙◌, List, [], ◌∷◌, ◌++◌,
  some, length, get_elem?, length-append, arith,
}
use vexfs.Disk.Result.{ok}
use vexfs.File.{bytes_at}
use vexfs.File.Ranges.{bytes_at-overwrite_apart, bytes_at-overwrite}
use vexfs.Journal.{
  Journal, JournalFile, journal_offset, max_journal_entries, slot_offset, write_entry,
}
use vexfs.Journal.Records.{
  JournalEntry, HeaderFits, EntryFits, header_to_bytes, entry_to_bytes, journal_payload_size,
  entry_free,
}
use vexfs.Journal.Slots.{
  written, slot, header_bytes, IsLogged, used_entry-entry_to_bytes, valid_header-header_to_bytes,
  length-entry_to_bytes, length-header_to_bytes, counted, appended, write_entry-appended,
}

module _ (crc : List ℕ → ℕ) (e : JournalEntry) (s : JournalFile)
    (payload : length e.payload ≡ journal_payload_size) where
  -- Reads of the appended file, seen through its two writes.
  beside_header :
      (lo len : ℕ)
      → journal_offset + 64 ≤ lo
      → bytes_at (appended crc e s).file.at lo len
        ≡ bytes_at
            (written (slot_offset s.journal.next_slot) (entry_to_bytes crc e) s.file).at
            lo
            len
  beside_header lo len h =
      bytes_at-overwrite_apart
        (written (slot_offset s.journal.next_slot) (entry_to_bytes crc e) s.file).at journal_offset
        (header_to_bytes crc (counted s.journal).header) lo len
        (inr (omega (arith, length-header_to_bytes crc (counted s.journal).header)))

  slot-appended_self : slot (appended crc e s).file s.journal.next_slot ≡ entry_to_bytes crc e
  slot-appended_self =
      beside_header (slot_offset s.journal.next_slot) 512 (omega arith)
      ∙ bytes_at-overwrite s.file.at (slot_offset s.journal.next_slot) (entry_to_bytes crc e) 512
          (length-entry_to_bytes crc e payload)

  slot-appended_ne :
      (i : ℕ) → i ≢ s.journal.next_slot → slot (appended crc e s).file i ≡ slot s.file i
  slot-appended_ne i other =
      beside_header (slot_offset i) 512 (omega arith)
      ∙ bytes_at-overwrite_apart s.file.at (slot_offset s.journal.next_slot) (entry_to_bytes crc e)
          (slot_offset i) 512 (omega (arith, length-entry_to_bytes crc e payload))

  header-appended :
      header_bytes (appended crc e s).file ≡ header_to_bytes crc (counted s.journal).header
  header-appended =
      bytes_at-overwrite
        (written (slot_offset s.journal.next_slot) (entry_to_bytes crc e) s.file).at journal_offset
        (header_to_bytes crc (counted s.journal).header) 64
        (length-header_to_bytes crc (counted s.journal).header)

  -- The data region is not touched.
  pub at-appended :
      (i : ℕ)
      → s.journal.next_slot < max_journal_entries
      → slot_offset max_journal_entries ≤ i
      → (appended crc e s).file.at i ≡ s.file.at i
  at-appended i free h = ground (
    arith,
    length-entry_to_bytes crc e payload,
    length-header_to_bytes crc (counted s.journal).header,
  )

pub HeaderFits-counted : (j : Journal) → HeaderFits j.header → HeaderFits (counted j).header
HeaderFits-counted j f = record {
  magic = f.magic;
  version = f.version;
  next_tx_id = f.next_tx_id;
  entry_count = omega arith;
}

pub get_elem?-append :
    (es : List JournalEntry) (e x : JournalEntry) (i : ℕ)
    → get_elem? (es ++ (e ∷ [])) i ≡ some x
    → ((i ≡ length es) × (x ≡ e)) ⊎ ((get_elem? es i ≡ some x) × (i ≢ length es))
get_elem?-append [] e x zero h = inl (refl, cc)
get_elem?-append [] e x (suc i) h = absurd (cc)
get_elem?-append (y ∷ es) e x zero h = inr (h, omega arith)
get_elem?-append (y ∷ es) e x (suc i) h = elim (get_elem?-append es e x i h) [
  | inl (at, same) ↦ inl (ap suc at, same)
  | inr (at, other) ↦ inr (at, omega arith)
]

module _ (crc : List ℕ → ℕ) (word : (bytes : List ℕ) → crc bytes < 2 ^ 32) where
  -- `write_entry` with a free slot and two more writes succeeds: the entry stands behind the
  -- others, the data region is as it was, and two writes are used.
  pub write_entry-IsLogged :
      (e : JournalEntry) (s : JournalFile) (es : List JournalEntry)
      → IsLogged crc s es
      → length es < max_journal_entries
      → EntryFits e
      → e.entry_type ≢ entry_free
      → 2 ≤ s.file.budget
      → (write_entry crc e s ≡ (ok tt, appended crc e s))
        × IsLogged crc (appended crc e s) (es ++ (e ∷ []))
  write_entry-IsLogged e s es g free f busy budget = (
    write_entry-appended crc e s (omega (arith, g.next)) f.payload budget,
    record {
      next = omega (arith, g.next, length-append es (e ∷ []));
      within = omega (arith, length-append es (e ∷ []));
      used = λ i x at. elim (get_elem?-append es e x i at) [
        | inl (here, same) ↦
            let at_next : i ≡ s.journal.next_slot = omega (arith, g.next) in
            rw (at_next, same, slot-appended_self crc e s f.payload)
              (used_entry-entry_to_bytes crc word e f busy)
        | inr (old, other) ↦
            rw (slot-appended_ne crc e s f.payload i (omega (arith, g.next))) (g.used i x old)
      ];
      unused = λ i lo hi.
          rw
            (slot-appended_ne crc e s f.payload i
              (omega (arith, g.next, length-append es (e ∷ []))))
            (g.unused i (omega (arith, length-append es (e ∷ []))) hi);
      disk_header = (counted s.journal).header;
      header = rw (header-appended crc e s f.payload) (
          valid_header-header_to_bytes crc word (counted s.journal).header
            (HeaderFits-counted s.journal g.fits) g.magic);
      fits = HeaderFits-counted s.journal g.fits;
      magic = g.magic;
      room = omega (arith, g.room);
    },
  )
