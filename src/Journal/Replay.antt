-- ===== src/Journal/Replay.antt =====
-- src/fs/journal.rs: about the selection of `open`, when a transaction stands behind older ones.
use mathlib.Core.List.{append-nil}
use vexfs.Base.{ℕ, ◌≡◌, ◌≢◌, ◌⊎◌, refl, List, [], ◌∷◌, ◌++◌, true, false, All, arith}
use vexfs.Base.Map.{member}
use vexfs.Journal.{committed_txs, replays, select, to_replay}
use vexfs.Journal.Records.{
  JournalEntry, entry_write_inode, entry_write_data, entry_commit, state_written,
}

-- No entry is of the transaction.
abbrev pub Fresh : ℕ → List JournalEntry → Type 0
Fresh tx = All (λ e. e.tx_id ≢ tx)

abbrev pub Updates : ℕ → JournalEntry → Type 0
Updates tx e =
    (e.tx_id ≡ tx)
    × ((e.state ≡ state_written)
        × ((e.entry_type ≡ entry_write_inode) ⊎ (e.entry_type ≡ entry_write_data)))

-- The entries are inode and data writes of the transaction.
abbrev pub AllUpdates : ℕ → List JournalEntry → Type 0
AllUpdates tx = All (Updates tx)

pub record IsCommit (tx : ℕ) (e : JournalEntry) : Type 0 where
  pub tx_id : e.tx_id ≡ tx
  pub state : e.state ≡ state_written
  pub entry_type : e.entry_type ≡ entry_commit

committed_txs-append :
    (xs ys : List JournalEntry) → committed_txs (xs ++ ys) ≡ committed_txs xs ++ committed_txs ys
unfolding committed_txs
committed_txs-append [] ys = refl
committed_txs-append (x ∷ xs) ys = rw (committed_txs-append xs ys) (ground arith)

committed_txs-updates : (tx : ℕ) (ds : List JournalEntry) → AllUpdates tx ds → committed_txs ds ≡ []
unfolding committed_txs
committed_txs-updates tx [] h = refl
committed_txs-updates tx (d ∷ ds) (h, hs) = rw (committed_txs-updates tx ds hs) (ground arith)

member-committed_txs :
    (tx : ℕ) (es : List JournalEntry) → Fresh tx es → member tx (committed_txs es) ≡ false
unfolding committed_txs member
member-committed_txs tx [] h = refl
member-committed_txs tx (e ∷ es) (h, hs) = let ih = member-committed_txs tx es hs in ground arith

select-append :
    (txs : List ℕ) (xs ys : List JournalEntry)
    → select txs (xs ++ ys) ≡ select txs xs ++ select txs ys
unfolding select
select-append txs [] ys = refl
select-append txs (x ∷ xs) ys = rw (select-append txs xs ys) (ground arith)

member-append_ne : (tx a : ℕ) (txs : List ℕ) → a ≢ tx → member a (txs ++ (tx ∷ [])) ≡ member a txs
unfolding member
member-append_ne tx a [] h = ground arith
member-append_ne tx a (t ∷ txs) h = let ih = member-append_ne tx a txs h in ground arith

member-append_self : (tx : ℕ) (txs : List ℕ) → member tx (txs ++ (tx ∷ [])) ≡ true
unfolding member
member-append_self tx [] = ground arith
member-append_self tx (t ∷ txs) = let ih = member-append_self tx txs in ground arith

select-Fresh :
    (tx : ℕ) (txs : List ℕ) (es : List JournalEntry)
    → Fresh tx es
    → select (txs ++ (tx ∷ [])) es ≡ select txs es
unfolding select replays
select-Fresh tx txs [] h = refl
select-Fresh tx txs (e ∷ es) (h, hs) =
    rw (member-append_ne tx e.tx_id txs h, select-Fresh tx txs es hs)

select-updates :
    (tx : ℕ) (txs : List ℕ) (ds : List JournalEntry)
    → AllUpdates tx ds
    → member tx txs ≡ true
    → select txs ds ≡ ds
unfolding select replays
select-updates tx txs [] h m = refl
select-updates tx txs (d ∷ ds) (h, hs) m = rw (select-updates tx txs ds hs m, h.0, m) (ground arith)

select-updates_open :
    (tx : ℕ) (txs : List ℕ) (ds : List JournalEntry)
    → AllUpdates tx ds
    → member tx txs ≡ false
    → select txs ds ≡ []
unfolding select replays
select-updates_open tx txs [] h m = refl
select-updates_open tx txs (d ∷ ds) (h, hs) m = rw (select-updates_open tx txs ds hs m, h.0, m)

-- The writes of a transaction without a commit entry are not handed out, and change nothing else.
pub to_replay-uncommitted :
    (tx : ℕ) (es ds : List JournalEntry)
    → Fresh tx es
    → AllUpdates tx ds
    → to_replay (es ++ ds) ≡ to_replay es
unfolding to_replay
to_replay-uncommitted tx es ds fresh updates = rw (
  committed_txs-append es ds,
  committed_txs-updates tx ds updates,
  append-nil (committed_txs es),
  select-append (committed_txs es) es ds,
  select-updates_open tx (committed_txs es) ds updates (member-committed_txs tx es fresh),
  append-nil (select (committed_txs es) es),
)

committed_txs-commit :
    (tx : ℕ) (c : JournalEntry) → IsCommit tx c → committed_txs (c ∷ []) ≡ tx ∷ []
unfolding committed_txs
committed_txs-commit tx c h = rw (h.tx_id, h.state, h.entry_type)

select-commit :
    (tx : ℕ) (txs : List ℕ) (c : JournalEntry) → IsCommit tx c → select txs (c ∷ []) ≡ []
unfolding select replays
select-commit tx txs c h = rw (h.state, h.entry_type) (ground arith)

-- With its commit entry behind them they are handed out, in order, behind the older ones.
pub to_replay-committed :
    (tx : ℕ) (es ds : List JournalEntry) (c : JournalEntry)
    → Fresh tx es
    → AllUpdates tx ds
    → IsCommit tx c
    → to_replay (es ++ (ds ++ (c ∷ []))) ≡ to_replay es ++ ds
unfolding to_replay
to_replay-committed tx es ds c fresh updates last =
    let commits : committed_txs (es ++ (ds ++ (c ∷ []))) ≡ committed_txs es ++ (tx ∷ []) = rw (
      committed_txs-append es (ds ++ (c ∷ [])),
      committed_txs-append ds (c ∷ []),
      committed_txs-updates tx ds updates,
      committed_txs-commit tx c last,
    ) in
    let txs = committed_txs es ++ (tx ∷ []) in
    rw (
      commits,
      select-append txs es (ds ++ (c ∷ [])),
      select-append txs ds (c ∷ []),
      select-commit tx txs c last,
      append-nil (select txs ds),
      select-Fresh tx (committed_txs es) es fresh,
      select-updates tx txs ds updates (member-append_self tx (committed_txs es)),
    )
