-- ===== src/Linux/Probe.antt =====
-- `probe_no_clobber` of src/kavita_ingest/filesystem.py, on Linux: whether hard links in a library
-- root keep a destination that exists.
use kavita_ingest.Prelude.{
  ℕ, String, Bool, true, false, not, Option, none, some, ◌∷◌, ◌==◌, nat_Eq, if◌then◌else◌,
}
use kavita_ingest.Filesystem.State.{FilePath, Bytes, is_dir, inode_number}
use kavita_ingest.Effect.{
  Exception, Kind, file_exists, is_os_error, M, pure, rethrow, look, catch, try_finally, ◌>>=◌,
  ◌>>◌,
}
use kavita_ingest.Linux.{
  mkdir, rmdir, fsync, link, unlink_missing_ok, create, random_text, make_file_durable,
}

pub record PublicationProbe : Type 0 where
  pub supported : Bool
  pub detail : String

abbrev unsupported : String → PublicationProbe
unsupported text = record { supported = false; detail = text }

-- Whether a second link to a path that exists is made.
abbrev is_refused : Exception → Kind → M Bool
is_refused e file_exists = pure true
is_refused e _ = rethrow e

unfoldable pub second_link_refused : FilePath → FilePath → M Bool
second_link_refused staged destination =
    catch (do link staged destination; pure false) (λ e. is_refused e e.kind)

abbrev same_number : Option ℕ → Option ℕ → Bool
same_number (some i) (some j) = i == j
same_number _ _ = false

-- The body of the `with` over the temporary directory; `none` goes on behind it.
unfoldable pub try_links : Bytes → FilePath → M (Option PublicationProbe)
try_links payload directory = do
  let staged = "staged" ∷ directory
  let destination = "destination" ∷ directory
  create staged payload 420
  make_file_durable staged
  link staged destination
  refused ← second_link_refused staged destination
  same ← look (λ fs. same_number (inode_number staged fs) (inode_number destination fs))
  if not refused
      then pure (some (unsupported "existing destination was not protected"))
      else if not same
      then pure (some (unsupported "publication did not preserve the staged inode"))
      else (do fsync destination; fsync directory; pure none)

-- tempfile.TemporaryDirectory removes what it holds.
unfoldable pub remove_directory : FilePath → M (Unit {0})
remove_directory directory = do
  unlink_missing_ok ("staged" ∷ directory)
  unlink_missing_ok ("destination" ∷ directory)
  rmdir directory

unfoldable pub probe_links : Bytes → FilePath → M PublicationProbe
probe_links payload root = do
  token ← random_text
  let directory = token ∷ root
  mkdir directory
  answer ← try_finally (try_links payload directory) (remove_directory directory)
  settle answer
  where
    settle : Option PublicationProbe → M PublicationProbe
    settle (some p) = pure p
    settle none = do
      fsync root
      pure (record {
        supported = true;
        detail = "atomic hard-link no-clobber publication is supported";
      })

abbrev failed_probe : Exception → Bool → M PublicationProbe
failed_probe e true = pure (unsupported "hard-link publication probe failed")
failed_probe e false = rethrow e

unfoldable pub probe_no_clobber : Bytes → FilePath → M PublicationProbe
probe_no_clobber payload root = do
  there ← look (is_dir root)
  if not there
      then pure (unsupported "configured root is unavailable")
      else catch (probe_links payload root) (λ e. failed_probe e (is_os_error e.kind))
