-- ===== src/Engine/SourceSafe.antt =====
-- The source of an item is given up only behind a verified copy.
pub mod Finish
pub mod Execute
use kavita_ingest.Prelude.{
  ℕ, String, ◌≡◌, ◌≢◌, refl, sym, ap, ◌∙◌, ◌⊎◌, inl, inr, Bool, true, false, Option, none, some,
  arith,
}
use kavita_ingest.Filesystem.State.{FilePath, Bytes, Inode, Files, stat}
use kavita_ingest.Filesystem.Kept.{Kept, Kept-refl, IsBounded, Fresh}
use kavita_ingest.Filesystem.Contents.{
  HasBytes, Stable, HasBytes-Stable, stat-HasBytes, HasBytes-unique,
}
use kavita_ingest.Journal.States.{Policy, preserve, archive_after_verify}
use kavita_ingest.Journal.Keeping.{Anything}
use kavita_ingest.Effect.{Env, World, M, Result, done, error, system}
use kavita_ingest.Effect.Keeps.{Keeps}
use kavita_ingest.Effect.Triples.{Triple, EndsResult, Triple-system}
use kavita_ingest.Linux.{contents_of, digest_of, read, sha256_file}
use kavita_ingest.Linux.Kept.{KeptIn}
use kavita_ingest.Engine.Item.{PreparedItem, Externals}

-- What has been shown of the destination: its bytes passed the verification against the source's.
pub record IsCopied (x : Externals) (item : PreparedItem) (original : Bytes) (fs : Files)
    : Type 0 where
  pub bytes : Bytes
  pub there : HasBytes item.destination bytes fs
  pub verified : (x.verify item original bytes).valid ≡ true

-- The archive holds a file of the planned hash.
pub record IsArchived (env : Env) (item : PreparedItem) (fs : Files) : Type 0 where
  pub archive : FilePath
  pub planned : item.archive_path ≡ some archive
  pub bytes : Bytes
  pub there : HasBytes archive bytes fs
  pub hash : env.sha256 bytes ≡ item.source_hash

-- What has to hold before a source may go.
pub record IsPublished (env : Env) (x : Externals) (item : PreparedItem) (original : Bytes)
    (fs : Files) : Type 0 where
  pub given_up : item.lifecycle_policy ≢ preserve
  pub copied : IsCopied x item original fs
  pub archived : item.lifecycle_policy ≡ archive_after_verify → IsArchived env item fs

-- A property of well-formed files.
pub record Intact (J : Files → Type 0) (fs : Files) : Type 0 where
  pub bounded : IsBounded fs
  pub holds : J fs

-- What leaves alone all that it may not touch keeps what is stable under that.
pub Keeps-Stable :
    {env : Env} {A : Type 0} (May : FilePath → Type 0) (J : Files → Type 0) (m : M A)
    → Stable May J
    → ((base : Files) → Keeps env (KeptIn base May Anything) m)
    → Keeps env (λ w. Intact J w.files) m
Keeps-Stable May J m stable h = record {
  at = λ w i.
      let k = (h w.files).at w (record { files = Kept-refl w.files May i.bounded; tables = tt }) in
      record {
        bounded = k.files.bounded;
        holds = stable.stays w.files _ i.bounded k.files i.holds;
      };
}

module _ (May : FilePath → Type 0) where
  pub Stable-and :
      (J K : Files → Type 0) → Stable May J → Stable May K → Stable May (λ fs. J fs × K fs)
  Stable-and J K j k = record {
    stays = λ base fs bounded kept h.
        (j.stays base fs bounded kept h.0, k.stays base fs bounded kept h.1);
  }

  pub IsCopied-Stable :
      (x : Externals) (item : PreparedItem) (original : Bytes)
      → ¬ May item.destination
      → Stable May (IsCopied x item original)
  IsCopied-Stable x item original apart = record {
    stays = λ base fs bounded kept h. record {
      bytes = h.bytes;
      there =
          (HasBytes-Stable May item.destination h.bytes apart).stays base fs bounded kept h.there;
      verified = h.verified;
    };
  }

  pub IsArchived-Stable :
      (env : Env) (item : PreparedItem)
      → ((archive : FilePath) → item.archive_path ≡ some archive → ¬ May archive)
      → Stable May (IsArchived env item)
  IsArchived-Stable env item apart = record {
    stays = λ base fs bounded kept h. record {
      archive = h.archive;
      planned = h.planned;
      bytes = h.bytes;
      there =
          (HasBytes-Stable May h.archive h.bytes (apart h.archive h.planned)).stays base fs bounded
            kept h.there;
      hash = h.hash;
    };
  }

module _ {env : Env} (P E : Files → Type 0) (pe : (fs : Files) → P fs → E fs) where
  -- What is read is what the file holds.
  pub read-Triple :
      (p : FilePath)
      → Triple env
          (λ w. P w.files)
          (read p)
          (λ bytes w. P w.files × HasBytes p bytes w.files)
          (λ w. E w.files)
  unfolding read
  read-Triple p =
      Triple-system _ (λ w h. by w (stat p w.files) refl h) (λ w. pe w.files) (λ w. pe w.files)
    where
      by :
          (w : World) (d : Option Inode)
          → stat p w.files ≡ d
          → P w.files
          → EndsResult
              (λ bytes v. P v.files × HasBytes p bytes v.files)
              (λ v. E v.files)
              w
              (contents_of d w.files)
      by w none e h = pe w.files h
      by w (some d) e h = (h, stat-HasBytes w.files p d e)

  pub sha256_file-Triple :
      (p : FilePath)
      → Triple env
          (λ w. P w.files)
          (sha256_file p)
          (λ digest w.
            P w.files × ((bytes : Bytes) × HasBytes p bytes w.files × (env.sha256 bytes ≡ digest)))
          (λ w. E w.files)
  unfolding sha256_file
  sha256_file-Triple p =
      Triple-system _ (λ w h. by w (stat p w.files) refl h) (λ w. pe w.files) (λ w. pe w.files)
    where
      by :
          (w : World) (d : Option Inode)
          → stat p w.files ≡ d
          → P w.files
          → EndsResult
              (λ digest v.
                P v.files
                × ((bytes : Bytes) × HasBytes p bytes v.files × (env.sha256 bytes ≡ digest)))
              (λ v. E v.files)
              w
              (digest_of env d w.files)
      by w none e h = pe w.files h
      by w (some d) e h = (h, (d.bytes, stat-HasBytes w.files p d e, refl))
