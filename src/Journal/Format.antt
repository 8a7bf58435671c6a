-- ===== src/Journal/Format.antt =====
-- src/fs/journal.rs: about `format` and `clear`.
use vexfs.Base.{
  ℕ, zero, suc, ◌+◌, ◌-◌, ◌*◌, ◌^◌, ◌≤◌, ◌<◌, ◌≡◌, ◌⊎◌, inl, inr, refl, ap, ◌∙◌, List, [], ◌∷◌,
  none, length, replicate, get_or, arith,
}
use vexfs.Disk.Result.{DiskResult, ok}
use vexfs.File.{◌>>◌, File, Exec, bytes_at, write_bytes}
use vexfs.File.Ranges.{bytes_at_cong, overwrite_inside, overwrite_outside, bytes_at-overwrite}
use vexfs.Journal.{
  Journal, JournalFile, journal_offset, max_journal_entries, slot_offset, zero_slots, format, clear,
  used_entry, write_header,
}
use vexfs.Journal.Records.{
  JournalHeader, JournalEntry, HeaderFits, new_header, header_to_bytes, journal_entry_size,
  journal_magic, is_free, entry_fields, check_entry, entry_from_bytes,
}
use vexfs.Journal.Slots.{
  written, write_bytes_ok, IsLogged, valid_header-header_to_bytes, length-header_to_bytes,
}

get_or-replicate : (n i : ℕ) → get_or {A = ℕ} (replicate n 0) i 0 ≡ 0
get_or-replicate zero i = refl
get_or-replicate (suc n) zero = refl
get_or-replicate (suc n) (suc i) = get_or-replicate n i

bytes_at_zero : (offset len : ℕ) → bytes_at (λ i. 0) offset len ≡ replicate len 0
unfolding bytes_at
bytes_at_zero offset zero = refl
bytes_at_zero offset (suc len) = ap (◌∷◌ 0) (bytes_at_zero (offset + 1) len)

-- What zeroing `count` slots from `offset` on leaves.
record Zeroed (run : DiskResult (Unit {0}) × File) (count offset : ℕ) (f : File) : Type 0 where
  result : run.0 ≡ ok tt
  inside : (i : ℕ) → offset ≤ i → i < offset + count * 512 → run.1.at i ≡ 0
  outside : (i : ℕ) → (i < offset) ⊎ (offset + count * 512 ≤ i) → run.1.at i ≡ f.at i
  grown : f.size ≤ run.1.size
  reaches : offset ≤ f.size → offset + count * 512 ≤ run.1.size
  spent : run.1.budget + count ≡ f.budget

zero_slots_step :
    (count offset : ℕ) (f : File)
    → 0 < f.budget
    → zero_slots (suc count) offset f
      ≡ zero_slots count
          (offset + journal_entry_size)
          (written offset (replicate journal_entry_size 0) f)
unfolding zero_slots
zero_slots_step count offset f h =
    rw (write_bytes_ok offset (replicate journal_entry_size 0) f (omega arith) h, zero_slots)

Zeroed-zero_slots :
    (count offset : ℕ) (f : File)
    → count ≤ f.budget
    → Zeroed (zero_slots count offset f) count offset f
unfolding zero_slots
Zeroed-zero_slots zero offset f h = record {
  result = refl;
  inside = λ i a b. absurd (omega arith);
  outside = λ i a. refl;
  grown = omega arith;
  reaches = λ a. omega arith;
  spent = omega arith;
}
Zeroed-zero_slots (suc count) offset f h =
    let zeros = replicate journal_entry_size 0 in
    let long : length zeros ≡ 512 = refl in
    let rest = Zeroed-zero_slots count (offset + 512) (written offset zeros f) (omega arith) in
    rw (zero_slots_step count offset f (omega arith)) (record {
      result = rest.result;
      inside = λ i a b.
          let side : (i < offset + 512) ⊎ (offset + 512 ≤ i) = omega arith in
          elim side [
            | inl near ↦
                rest.outside i (inl near)
                ∙ (overwrite_inside f.at offset zeros i a (omega (arith, long))
                    ∙ get_or-replicate 512 (i - offset))
            | inr far ↦ rest.inside i far (omega arith)
          ];
      outside = λ i a.
          rest.outside i (omega arith)
          ∙ overwrite_outside f.at offset zeros i (omega (arith, long));
      grown = omega (arith, rest.grown);
      reaches = λ a. omega (arith, rest.reaches (omega arith));
      spent = omega (arith, rest.spent);
    })

module _ (crc : List ℕ → ℕ) where
  -- The header, then every slot.
  abbrev wipe : JournalHeader → Exec File (Unit {0})
  wipe h = do
    write_bytes journal_offset (header_to_bytes crc h)
    zero_slots max_journal_entries (slot_offset 0)

  wipe_step :
      (h : JournalHeader) (f : File)
      → 0 < f.budget
      → wipe h f
        ≡ zero_slots max_journal_entries
            (slot_offset 0)
            (written journal_offset (header_to_bytes crc h) f)
  wipe_step h f some_left = rw (
      write_bytes_ok journal_offset (header_to_bytes crc h) f
        (omega (arith, length-header_to_bytes crc h)) some_left)

  used_entry-zeroes : used_entry crc (replicate 512 0) ≡ none
  unfolding used_entry entry_from_bytes check_entry entry_fields is_free
  used_entry-zeroes = refl

  module _ (word : (bytes : List ℕ) → crc bytes < 2 ^ 32) where
    IsLogged-wipe :
        (h : JournalHeader) (f : File)
        → HeaderFits h
        → h.magic ≡ journal_magic
        → max_journal_entries < f.budget
        → ((wipe h f).1.budget + 513 ≡ f.budget)
          × (IsLogged crc
                (record { journal = record { header = h; next_slot = 0 }; file = (wipe h f).1 })
                []
              × ((i : ℕ) → slot_offset max_journal_entries ≤ i → (wipe h f).1.at i ≡ f.at i))
    IsLogged-wipe h f fits magic budget =
        let f1 = written journal_offset (header_to_bytes crc h) f in
        let z = Zeroed-zero_slots max_journal_entries (slot_offset 0) f1 (omega arith) in
        let long = length-header_to_bytes crc h in
        rw (wipe_step h f (omega arith)) (
          omega (arith, z.spent),
          (
            (record {
              next = refl;
              within = omega arith;
              used = λ i e at. absurd (cc);
              unused = λ i lo hi.
                  rw
                    (
                      bytes_at_cong (zero_slots max_journal_entries (slot_offset 0) f1).1.at
                          (λ j. 0) (slot_offset i) 512
                          (λ j a b. z.inside j (omega arith) (omega arith)),
                      bytes_at_zero (slot_offset i) 512,
                    )
                    used_entry-zeroes;
              disk_header = h;
              header =
                  rw
                    (
                      bytes_at_cong (zero_slots max_journal_entries (slot_offset 0) f1).1.at f1.at
                          journal_offset 64 (λ j a b. z.outside j (inl (omega arith))),
                      bytes_at-overwrite f.at journal_offset (header_to_bytes crc h) 64 long,
                    )
                    (valid_header-header_to_bytes crc word h fits magic);
              fits = fits;
              magic = magic;
              room = omega (arith, z.reaches (omega (arith, long)));
            }),
            λ i behind.
                z.outside i (inr (omega arith))
                ∙ overwrite_outside f.at journal_offset (header_to_bytes crc h) i
                    (inr (omega (arith, long))),
          ),
        )

    format-wipe :
        (f : File)
        → max_journal_entries < f.budget
        → format crc f ≡ (ok (record { header = new_header; next_slot = 0 }), (wipe new_header f).1)
    unfolding format
    format-wipe f budget =
        let f1 = written journal_offset (header_to_bytes crc new_header) f in
        let z = Zeroed-zero_slots max_journal_entries (slot_offset 0) f1 (omega arith) in
        rw (
          write_bytes_ok journal_offset (header_to_bytes crc new_header) f
              (omega (arith, length-header_to_bytes crc new_header)) (omega arith),
          format,
          z.result,
        )

    clear-wipe :
        (s : JournalFile)
        → max_journal_entries < s.file.budget
        → let h : JournalHeader = record s.journal.header { entry_count = 0 } in
          clear crc s ≡ (
            ok tt,
            record { journal = record { header = h; next_slot = 0 }; file = (wipe h s.file).1 },
          )
    unfolding clear write_header
    clear-wipe s budget =
        let h : JournalHeader = record s.journal.header { entry_count = 0 } in
        let f1 = written journal_offset (header_to_bytes crc h) s.file in
        let z = Zeroed-zero_slots max_journal_entries (slot_offset 0) f1 (omega arith) in
        rw (
          write_bytes_ok journal_offset (header_to_bytes crc h) s.file
              (omega (arith, length-header_to_bytes crc h)) (omega arith),
          clear,
          z.result,
        )

    -- Formatting an image succeeds when its 513 writes do, and leaves an empty journal after that many.
    pub format-IsLogged :
        (f : File)
        → max_journal_entries < f.budget
        → let journal : Journal = record { header = new_header; next_slot = 0 } in
          (f' : File) × ((format crc f ≡ (ok journal, f'))
            × (IsLogged crc (record { journal = journal; file = f' }) []
                × (f'.budget + 513 ≡ f.budget)))
    format-IsLogged f budget =
        let fits : HeaderFits new_header = record {
          magic = omega arith;
          version = omega arith;
          next_tx_id = omega arith;
          entry_count = omega arith;
        } in
        let (spent, (logged, same)) = IsLogged-wipe new_header f fits refl budget in
        (_, (format-wipe f budget, (logged, spent)))

    -- Clearing a journal succeeds when its 513 writes do. The journal is empty then, and the next
    -- transaction id and the bytes behind the journal are kept.
    pub clear-IsLogged :
        (s : JournalFile) (es : List JournalEntry)
        → IsLogged crc s es
        → max_journal_entries < s.file.budget
        → (s' : JournalFile) × ((clear crc s ≡ (ok tt, s'))
            × (IsLogged crc s' []
                × ((s'.journal.header.next_tx_id ≡ s.journal.header.next_tx_id)
                    × ((i : ℕ)
                        → slot_offset max_journal_entries ≤ i
                        → s'.file.at i ≡ s.file.at i))))
    clear-IsLogged s es g budget =
        let h : JournalHeader = record s.journal.header { entry_count = 0 } in
        let fits : HeaderFits h = record {
          magic = g.fits.magic;
          version = g.fits.version;
          next_tx_id = g.fits.next_tx_id;
          entry_count = omega arith;
        } in
        let (spent, (logged, same)) = IsLogged-wipe h s.file fits g.magic budget in
        (_, (clear-wipe s budget, (logged, (refl, same))))
