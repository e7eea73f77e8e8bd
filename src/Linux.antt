-- ===== src/Linux.antt =====
-- `LinuxFilesystem` and the helpers of src/kavita_ingest/filesystem.py. Each system call is one
-- effect, which may fail or be the last before the process dies. The platform is Linux, and the
-- code of a failed `link` is not looked at: such a failure stays an `OSError`.
pub mod Kept
pub mod Probe
pub mod Methods
pub mod Archive
use Prim.Native.String.{◌++◌ as concat}
use kavita_ingest.Prelude.{
  ℕ, String, Bool, true, false, not, ◌&&◌, Option, none, some, List, [], ◌∷◌, ◌++◌, ◌==◌, texts_Eq,
  nat_Eq, string_Eq, if◌then◌else◌,
}
use kavita_ingest.Filesystem.State.{
  FilePath, parent, child, is_relative_to, Bytes, Node, directory, file, Inode, Files, node_at,
  inode_at, exists, is_file, is_dir, is_empty, stat, inode_number, set_node, drop_node, set_inode,
  new_file,
}
use kavita_ingest.Effect.{
  Env, Exception, Kind, M, Result, done, error, exception, os_error, file_exists,
  destination_exists, not_a_directory, is_os_error, pure, raise, rethrow, look, system, catch,
  try_finally, refuse_if, when, from_option, ◌>>=◌, ◌>>◌,
}

abbrev pub nothing : Files → Result (Unit {0} × Files)
nothing fs = done (tt, fs)

abbrev pub changed : Files → Result (Unit {0} × Files)
changed fs = done (tt, fs)

abbrev pub failure {ℓ} : {A : Type ℓ} → Kind → String → Result A
failure k m = error (exception k m)

-- System calls.

-- os.mkdir, with the usual mode 0o777
unfoldable pub mkdir : FilePath → M (Unit {0})
mkdir p = system λ env t fs.
    if exists p fs
    then failure file_exists "file exists"
    else if is_dir (parent p) fs
    then changed (set_node p (directory 511) fs)
    else failure os_error "no such directory"

abbrev pub moded : ℕ → ℕ → Option Inode → Files → Result (Unit {0} × Files)
moded i mode none fs = failure os_error "no such inode"
moded i mode (some d) fs = changed (set_inode i (record d { mode = mode }) fs)

abbrev pub with_mode : FilePath → ℕ → Option Node → Files → Result (Unit {0} × Files)
with_mode p mode none fs = failure os_error "no such file"
with_mode p mode (some (directory m)) fs = changed (set_node p (directory mode) fs)
with_mode p mode (some (file i)) fs = moded i mode (inode_at fs i) fs

unfoldable pub chmod : FilePath → ℕ → M (Unit {0})
chmod p mode = system λ env t fs. with_mode p mode (node_at fs p) fs

unfoldable pub rmdir : FilePath → M (Unit {0})
rmdir p = system λ env t fs.
    if is_dir p fs && is_empty p fs
    then changed (drop_node p fs)
    else failure os_error "not an empty directory"

-- `_fsync_file` and `_fsync_directory`: opening the path and flushing it.
unfoldable pub fsync : FilePath → M (Unit {0})
fsync p = system λ env t fs. if exists p fs then nothing fs else failure os_error "no such file"

abbrev pub linked : FilePath → Option Node → Files → Result (Unit {0} × Files)
linked p (some (file i)) fs = changed (set_node p (file i) fs)
linked p _ fs = failure os_error "no such file"

-- os.link never replaces: an entry that is there makes it fail.
unfoldable pub link : FilePath → FilePath → M (Unit {0})
link from to = system λ env t fs.
    if exists to fs
    then failure file_exists "file exists"
    else if is_dir (parent to) fs
    then linked to (node_at fs from) fs
    else failure os_error "no such directory"

unfoldable pub unlink : FilePath → M (Unit {0})
unlink p =
    system
      λ env t fs. if is_file p fs then changed (drop_node p fs) else failure os_error "no such file"

-- path.unlink(missing_ok=True)
unfoldable pub unlink_missing_ok : FilePath → M (Unit {0})
unlink_missing_ok p =
    system λ env t fs. if is_file p fs then changed (drop_node p fs) else nothing fs

-- Opening a new file, with the flag that refuses one that is there.
unfoldable pub create : FilePath → Bytes → ℕ → M (Unit {0})
create p bytes mode = system λ env t fs.
    if exists p fs
    then failure file_exists "file exists"
    else if is_dir (parent p) fs
    then changed (new_file p (record { bytes = bytes; mode = mode }) fs)
    else failure os_error "no such directory"

-- A new file put onto a path by os.replace, whether a file is there or not.
unfoldable pub replace : FilePath → Bytes → ℕ → M (Unit {0})
replace p bytes mode = system λ env t fs.
    if is_dir p fs
    then failure os_error "is a directory"
    else if is_dir (parent p) fs
    then changed (new_file p (record { bytes = bytes; mode = mode }) fs)
    else failure os_error "no such directory"

abbrev pub rewritten_inode : Bytes → ℕ → Option Inode → Files → Result (Unit {0} × Files)
rewritten_inode bytes i none fs = failure os_error "no such inode"
rewritten_inode bytes i (some d) fs = changed (set_inode i (record d { bytes = bytes }) fs)

abbrev pub rewritten : Bytes → Option ℕ → Files → Result (Unit {0} × Files)
rewritten bytes none fs = failure os_error "no such file"
rewritten bytes (some i) fs = rewritten_inode bytes i (inode_at fs i) fs

-- Opening a file that is there, and writing all of its bytes anew.
unfoldable pub write : FilePath → Bytes → M (Unit {0})
write p bytes = system λ env t fs. rewritten bytes (inode_number p fs) fs

abbrev pub contents_of : Option Inode → Files → Result (Bytes × Files)
contents_of none fs = failure os_error "no such file"
contents_of (some d) fs = done (d.bytes, fs)

unfoldable pub read : FilePath → M Bytes
read p = system λ env t fs. contents_of (stat p fs) fs

abbrev pub digest_of : Env → Option Inode → Files → Result (String × Files)
digest_of env none fs = failure os_error "no such file"
digest_of env (some d) fs = done (env.sha256 d.bytes, fs)

unfoldable pub sha256_file : FilePath → M String
sha256_file p = system λ env t fs. digest_of env (stat p fs) fs

-- A fresh random text.
unfoldable pub random_text : M String
random_text = system λ env t fs. done (env.random t, fs)

-- Methods.

-- try: chmod, except OSError: remove the new directory again and raise
unfoldable pub publish_mode : FilePath → ℕ → M (Unit {0})
publish_mode p mode = catch (chmod p mode) λ e. do rmdir p; fsync (parent p); rethrow e

unfoldable pub settle_directory : FilePath → ℕ → M (Unit {0})
settle_directory p mode = do publish_mode p mode; fsync p; fsync (parent p)

-- except FileExistsError: whether the entry in the way is a directory
abbrev pub accept_directory : FilePath → Exception → Kind → M Bool
accept_directory p e file_exists = do
  d ← look (is_dir p)
  refuse_if (not d) not_a_directory "path component is not a directory"
  pure false
accept_directory p e _ = rethrow e

unfoldable pub make_component : FilePath → ℕ → M (Unit {0})
make_component p mode = do
  created ← catch (do mkdir p; pure true) (λ e. accept_directory p e e.kind)
  when created (settle_directory p mode)

-- The paths from below `root` down to the directory.
unfoldable pub components : FilePath → FilePath → List FilePath
components [] root = []
components (name ∷ p) root =
    let above = components p root in if (name ∷ p) == root then [] else above ++ (name ∷ p) ∷ []

unfoldable pub make_all : List FilePath → ℕ → M (Unit {0})
make_all [] mode = pure tt
make_all (p ∷ rest) mode = do make_component p mode; make_all rest mode

unfoldable pub ensure_directory : FilePath → FilePath → ℕ → M (Unit {0})
ensure_directory root target mode = do
  there ← look (exists root)
  refuse_if (not there) os_error "filesystem root does not exist"
  refuse_if (not (is_relative_to target root)) os_error "planned directory escapes filesystem root"
  make_all (components target root) mode

unfoldable pub set_file_mode : FilePath → ℕ → M (Unit {0})
set_file_mode p mode = chmod p mode

unfoldable pub make_file_durable : FilePath → M (Unit {0})
make_file_durable p = do fsync p; fsync (parent p)

-- except FileExistsError: raise DestinationExists
abbrev pub collide : Exception → Kind → M (Unit {0})
collide e file_exists = raise destination_exists "destination already exists"
collide e _ = rethrow e

unfoldable pub commit : FilePath → FilePath → M (Unit {0})
commit staged destination = do
  available ← look (is_dir (parent destination))
  refuse_if (not available) not_a_directory "destination parent is unavailable"
  fsync (parent destination)
  catch (link staged destination) (λ e. collide e e.kind)
  fsync destination
  fsync (parent destination)
  unlink staged
  fsync (parent staged)

unfoldable pub durable_unlink : FilePath → M (Unit {0})
durable_unlink p = do unlink p; fsync (parent p)

-- The loop that collects the missing directories, in the order in which they are made.
unfoldable pub missing_from : FilePath → Files → List FilePath
missing_from [] fs = []
missing_from (name ∷ p) fs =
    let above = missing_from p fs in if exists (name ∷ p) fs then [] else above ++ (name ∷ p) ∷ []

unfoldable pub ancestor : FilePath → Files → FilePath
ancestor [] fs = []
ancestor (name ∷ p) fs =
    let above = ancestor p fs in if exists (name ∷ p) fs then name ∷ p else above

unfoldable pub make_missing : List FilePath → ℕ → M (Unit {0})
make_missing [] mode = pure tt
make_missing (p ∷ rest) mode = do mkdir p; settle_directory p mode; make_missing rest mode

unfoldable pub ensure_from_existing_ancestor : FilePath → ℕ → M (Unit {0})
ensure_from_existing_ancestor target mode = do
  missing ← look (missing_from target)
  usable ← look (λ fs. is_dir (ancestor target fs) fs)
  refuse_if (not usable) not_a_directory "path component is not a directory"
  make_missing missing mode

abbrev name_of : FilePath → String
name_of [] = ""
name_of (name ∷ p) = name

-- The name that `mkstemp` makes for the archive's staging file.
abbrev pub archive_stage : FilePath → String → FilePath
archive_stage archive token =
    concat "." (concat (name_of archive) (concat "." (concat token ".archive-stage")))
    ∷ parent archive

unfoldable pub fill_archive : FilePath → FilePath → FilePath → String → M (Unit {0})
fill_archive source staged archive expected_hash = do
  bytes ← read source
  write staged bytes
  fsync staged
  digest ← sha256_file staged
  refuse_if (not (digest == expected_hash)) os_error
      "archival staging hash does not match planned source"
  commit staged archive

unfoldable pub copy_for_archive : FilePath → FilePath → String → ℕ → M (Unit {0})
copy_for_archive source archive expected_hash directory_mode = do
  ensure_from_existing_ancestor (parent archive) directory_mode
  token ← random_text
  let staged = archive_stage archive token
  create staged [] 384
  try_finally (fill_archive source staged archive expected_hash) (unlink_missing_ok staged)
