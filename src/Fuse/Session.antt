-- ===== src/Fuse/Session.antt =====
-- src/fuse/mod.rs: about sessions of calls on a new file system.
use vexfs.Base.{ℕ, ◌+◌, ◌^◌, ◌<◌, ◌≤◌, List, [], ◌∷◌, Option, length, arith}
use vexfs.DiskManager.{Image}
use vexfs.Btree.Entries.{find}
use vexfs.Btree.Search.{entries}
use vexfs.Btree.Directory.{new-IsIndex}
use vexfs.Fuse.{VexFs, World, Fs, ◌>>=◌, ◌>>◌, skip, new}
use vexfs.Fuse.Persist.{flush_all}
use vexfs.Fuse.Names.{lookup_name, create, mkdir}
use vexfs.Fuse.Edits.{unlink, rmdir, rename}
use vexfs.Fuse.Data.{read, write, setattr, fsync}
use vexfs.Fuse.Steps.{Leaves, Leaves-bind}
use vexfs.Fuse.Frame.{Preserves-flush_all}
use vexfs.Fuse.Linked.{Linked, Linked-IsStable}
use vexfs.Fuse.Entries.{Relinks, Relinks-Preserves, create-Relinks, mkdir-Relinks}
use vexfs.Fuse.Removal.{unlink-Relinks, rmdir-Relinks}
use vexfs.Fuse.Moves.{rename-Relinks, lookup-Relinks}
use vexfs.Fuse.Calls.{Preserves-read, Preserves-write, Preserves-setattr, Preserves-fsync}

pub data Call : Type 0 where
  lookup_call : ℕ → List ℕ → Call
  create_call : ℕ → List ℕ → Call
  mkdir_call : ℕ → List ℕ → Call
  unlink_call : ℕ → List ℕ → Call
  rmdir_call : ℕ → List ℕ → Call
  rename_call : ℕ → List ℕ → ℕ → List ℕ → Call
  read_call : ℕ → ℕ → ℕ → Call
  write_call : ℕ → ℕ → List ℕ → Call
  setattr_call : ℕ → Option ℕ → Call
  fsync_call : ℕ → Call
  destroy_call : Call

-- The reply is dropped.
abbrev silently : {A : Type 0} → Fs A → Fs (Unit {0})
silently m = do _ ← m; skip

module _ (trimmed : List ℕ → List ℕ) where
  unfoldable pub perform : World → Call → Fs (Unit {0})
  perform w (lookup_call parent name) = silently (lookup_name w parent name)
  perform w (create_call parent name) = silently (create w parent name)
  perform w (mkdir_call parent name) = silently (mkdir w parent name)
  perform w (unlink_call parent name) = silently (unlink w parent name)
  perform w (rmdir_call parent name) = silently (rmdir w parent name)
  perform w (rename_call parent name newparent newname) =
      silently (rename w parent name newparent newname)
  perform w (read_call ino offset size) = silently (read w ino offset size)
  perform w (write_call ino offset bytes) = silently (write w trimmed ino offset bytes)
  perform w (setattr_call ino size) = silently (setattr w ino size)
  perform w (fsync_call ino) = silently (fsync w ino)
  perform w destroy_call = flush_all w

  -- Each call with what the file system is given at that time.
  unfoldable pub perform_all : List (World × Call) → Fs (Unit {0})
  perform_all [] = skip
  perform_all ((w, call) ∷ calls) = do perform w call; perform_all calls

  silently-Relinks :
      {A : Type 0} (bound : ℕ) (m : Fs A) → Relinks bound m → Relinks bound (silently m)
  silently-Relinks bound m h s p =
      Leaves-bind (λ _. Linked (bound + 1)) (λ _. Linked (bound + 1)) (m s) (λ _. skip) (h s p)
        (λ _ s q. q)

  perform-Relinks :
      (bound : ℕ) (w : World) (call : Call) → bound + 1 < 2 ^ 64 → Relinks bound (perform w call)
  unfolding perform
  perform-Relinks bound w (lookup_call parent name) room =
      silently-Relinks bound _ (lookup-Relinks bound w parent name)
  perform-Relinks bound w (create_call parent name) room =
      silently-Relinks bound _ (create-Relinks bound w parent name room)
  perform-Relinks bound w (mkdir_call parent name) room =
      silently-Relinks bound _ (mkdir-Relinks bound w parent name room)
  perform-Relinks bound w (unlink_call parent name) room =
      silently-Relinks bound _ (unlink-Relinks bound w parent name)
  perform-Relinks bound w (rmdir_call parent name) room =
      silently-Relinks bound _ (rmdir-Relinks bound w parent name)
  perform-Relinks bound w (rename_call parent name newparent newname) room =
      silently-Relinks bound _ (rename-Relinks bound w parent name newparent newname)
  perform-Relinks bound w (read_call ino offset size) room =
      silently-Relinks bound _
        (Relinks-Preserves bound (read w ino offset size) (Preserves-read bound w ino offset size))
  perform-Relinks bound w (write_call ino offset bytes) room = silently-Relinks bound _ (
      Relinks-Preserves bound (write w trimmed ino offset bytes)
        (Preserves-write bound w trimmed ino offset bytes))
  perform-Relinks bound w (setattr_call ino size) room =
      silently-Relinks bound _
        (Relinks-Preserves bound (setattr w ino size) (Preserves-setattr bound w ino size))
  perform-Relinks bound w (fsync_call ino) room =
      silently-Relinks bound _ (Relinks-Preserves bound (fsync w ino) (Preserves-fsync bound w ino))
  perform-Relinks bound w destroy_call room =
      Relinks-Preserves bound (flush_all w)
        (Preserves-flush_all (Linked bound) (Linked-IsStable bound) w)

  perform_all-keeps :
      (calls : List (World × Call)) (bound end : ℕ) (s : VexFs)
      → bound + length calls ≤ end
      → end < 2 ^ 64
      → Linked bound s
      → Leaves (λ _. Linked end) (perform_all calls s)
  unfolding perform_all
  perform_all-keeps [] bound end s fits room (i, l, b) = (i, l, omega arith)
  perform_all-keeps ((w, call) ∷ calls) bound end s fits room p =
      Leaves-bind _ (λ _. Linked (bound + 1)) (perform w call s) (λ _. perform_all calls)
        (perform-Relinks bound w call (omega arith) s p)
        (λ _ s' q. perform_all-keeps calls (bound + 1) end s' (omega arith) room q)

  new-Linked : (image : Image) → Linked 2 (new image)
  unfolding find entries
  new-Linked image = (new-IsIndex, λ k v at. cc, omega arith)

  -- A session of fewer than 2^64 - 2 calls on a new file system, if none of them panics, leaves a
  -- well-formed index in which every entry has its file under the parent and the name of its key and
  -- an inode below the next one, and the next inode is at most 2 and the number of calls.
  pub perform_all-Linked :
      (calls : List (World × Call)) (image : Image)
      → 2 + length calls < 2 ^ 64
      → Leaves (λ _. Linked (2 + length calls)) (perform_all calls (new image))
  perform_all-Linked calls image room =
      perform_all-keeps calls 2 (2 + length calls) (new image) (omega arith) room (new-Linked image)
