-- ===== src/Linux/Kept.antt =====
-- The calls and methods of Linux leave alone what stood before, but for the paths that they are
-- allowed to touch.
use mathlib.Core.Path.{subst}
use kavita_ingest.Prelude.{
  ◌&&◌, ℕ, ◌≡◌, refl, Bool, true, false, Option, none, some, arith, if◌then◌else◌,
}
use kavita_ingest.Filesystem.State.{
  FilePath, Bytes, Node, directory, file, Inode, Files, node_at, inode_at, exists, is_file, is_dir,
  is_empty, parent, stat,
}
use kavita_ingest.Filesystem.Kept.{
  Kept, Fresh, Fresh-of_absent, Kept-set_node, Kept-drop_node, Kept-set_inode, Kept-new_file,
}
use kavita_ingest.Journal.Rows.{Db}
use kavita_ingest.Effect.{Env, World, Result, done, error, system}
use kavita_ingest.Effect.Keeps.{Keeps, Keeps-system}
use kavita_ingest.Linux.{
  linked, moded, with_mode, contents_of, digest_of, read, sha256_file, random_text, mkdir, chmod,
  rmdir, fsync, link, unlink, unlink_missing_ok, create, replace,
}

-- What holds of the files, and what holds of the journal's tables.
pub record Both (J : Files → Type 0) (D : Db → Type 0) (fs : Files) (db : Db) : Type 0 where
  pub files : J fs
  pub tables : D db

-- The files that stood before are left alone, and the journal's tables keep a property of theirs.
abbrev pub KeptIn : Files → (FilePath → Type 0) → (Db → Type 0) → World → Type 0
KeptIn base May D w = Both (Kept base May) D w.files w.db

-- What a pure step leaves behind, if it does not raise.
abbrev pub Leaves : {A : Type 0} → (Files → Type 0) → Result (A × Files) → Type 0
Leaves J (done (a, fs)) = J fs
Leaves J (error e) = Unit

pub Leaves-if :
    {A : Type 0} (J : Files → Type 0) (b : Bool) (r s : Result (A × Files))
    → (b ≡ true → Leaves J r)
    → (b ≡ false → Leaves J s)
    → Leaves J (if b then r else s)
Leaves-if J true r s hr hs = hr refl
Leaves-if J false r s hr hs = hs refl

pub Leaves_at :
    {A : Type 0} (J : Files → Type 0) (r : Result (A × Files)) {a : A} {fs : Files}
    → Leaves J r
    → r ≡ done (a, fs)
    → J fs
Leaves_at J (done (b, fs)) h e = subst (Leaves J) e h
Leaves_at J (error x) h e = cc

pub absent_of : (p : FilePath) (fs : Files) → exists p fs ≡ false → node_at fs p ≡ none
unfolding exists
absent_of p fs h = ground arith

-- What holds of the files and of the tables, as an invariant of actions.
abbrev pub Holds : (Files → Type 0) → (Db → Type 0) → World → Type 0
Holds J D w = Both J D w.files w.db

-- A call whose change keeps a property of the files keeps it as an effect.
pub Holds-system :
    {env : Env} {D : Db → Type 0} (J : Files → Type 0) {A : Type 0}
    (op : Env → ℕ → Files → Result (A × Files))
    → ((t : ℕ) (fs : Files) → J fs → Leaves J (op env t fs))
    → Keeps env (Holds J D) (system op)
Holds-system J op kd =
    Keeps-system op (λ w i. i)
      λ w a fs i e. record {
        files = Leaves_at J _ (kd w.tick w.files i.files) e;
        tables = i.tables;
      }

module _ {env : Env} {base : Files} {May : FilePath → Type 0} {D : Db → Type 0} where
  pub mkdir-Kept : (p : FilePath) → Keeps env (KeptIn base May D) (mkdir p)
  unfolding mkdir
  mkdir-Kept p = Holds-system (Kept base May) _ λ t fs kept.
      Leaves-if _ (exists p fs) _ _ (λ there. tt)
        λ absent.
          Leaves-if _ (is_dir (parent p) fs) _ _
            (λ _.
              Kept-set_node kept p _ (Fresh-of_absent kept p (absent_of p fs absent)) (λ j e. cc))
            (λ _. tt)

  pub link-Kept : (from to : FilePath) → Keeps env (KeptIn base May D) (link from to)
  unfolding link
  link-Kept from to = Holds-system (Kept base May) _ λ t fs kept.
      Leaves-if _ (exists to fs) _ _ (λ there. tt)
        λ absent.
          Leaves-if _ (is_dir (parent to) fs) _ _
            (λ _.
              linked_case kept (Fresh-of_absent kept to (absent_of to fs absent)) (node_at fs from)
                refl)
            (λ _. tt)
    where
      linked_case :
          {fs : Files}
          → Kept base May fs
          → Fresh base May to
          → (n : Option Node) → node_at fs from ≡ n
          → Leaves (Kept base May) (linked to n fs)
      linked_case kept fresh none e = tt
      linked_case kept fresh (some (file i)) e =
          Kept-set_node kept to _ fresh (λ j f. ground (arith, kept.bounded from i e))
      linked_case kept fresh (some (directory m)) e = tt

  pub create-Kept :
      (p : FilePath) (bytes : Bytes) (mode : ℕ)
      → Keeps env (KeptIn base May D) (create p bytes mode)
  unfolding create
  create-Kept p bytes mode = Holds-system (Kept base May) _ λ t fs kept.
      Leaves-if _ (exists p fs) _ _ (λ there. tt)
        λ absent.
          Leaves-if _ (is_dir (parent p) fs) _ _
            (λ _. Kept-new_file kept p _ (Fresh-of_absent kept p (absent_of p fs absent))) (λ _. tt)

  pub replace-Kept :
      (p : FilePath) (bytes : Bytes) (mode : ℕ)
      → Fresh base May p
      → Keeps env (KeptIn base May D) (replace p bytes mode)
  unfolding replace
  replace-Kept p bytes mode fresh = Holds-system (Kept base May) _ λ t fs kept.
      Leaves-if _ (is_dir p fs) _ _ (λ there. tt)
        λ absent.
          Leaves-if _ (is_dir (parent p) fs) _ _ (λ _. Kept-new_file kept p _ fresh) (λ _. tt)

  pub chmod-Kept :
      (p : FilePath) (mode : ℕ) → Fresh base May p → Keeps env (KeptIn base May D) (chmod p mode)
  unfolding chmod
  chmod-Kept p mode fresh =
      Holds-system (Kept base May) _ λ t fs kept. mode_case fs kept (node_at fs p)
    where
      inode_case :
          (fs : Files)
          → Kept base May fs
          → (i : ℕ) (d : Option Inode) → inode_at fs i ≡ d
          → Leaves (Kept base May) (moded i mode d fs)
      inode_case fs kept i none e = tt
      inode_case fs kept i (some d) e = Kept-set_inode kept i _ (λ h. rw e refl)

      mode_case :
          (fs : Files)
          → Kept base May fs
          → (n : Option Node) → Leaves (Kept base May) (with_mode p mode n fs)
      mode_case fs kept none = tt
      mode_case fs kept (some (directory m)) = Kept-set_node kept p _ fresh (λ j e. cc)
      mode_case fs kept (some (file i)) = inode_case fs kept i (inode_at fs i) refl

  pub rmdir-Kept : (p : FilePath) → Fresh base May p → Keeps env (KeptIn base May D) (rmdir p)
  unfolding rmdir
  rmdir-Kept p fresh = Holds-system (Kept base May) _ λ t fs kept.
      Leaves-if _ (is_dir p fs && is_empty p fs) _ _ (λ _. Kept-drop_node kept p fresh) (λ _. tt)

  pub unlink-Kept : (p : FilePath) → Fresh base May p → Keeps env (KeptIn base May D) (unlink p)
  unfolding unlink
  unlink-Kept p fresh =
      Holds-system (Kept base May) _
        λ t fs kept. Leaves-if _ (is_file p fs) _ _ (λ _. Kept-drop_node kept p fresh) (λ _. tt)

  pub unlink_missing_ok-Kept :
      (p : FilePath) → Fresh base May p → Keeps env (KeptIn base May D) (unlink_missing_ok p)
  unfolding unlink_missing_ok
  unlink_missing_ok-Kept p fresh =
      Holds-system (Kept base May) _
        λ t fs kept. Leaves-if _ (is_file p fs) _ _ (λ _. Kept-drop_node kept p fresh) (λ _. kept)

  pub fsync-Kept : (p : FilePath) → Keeps env (KeptIn base May D) (fsync p)
  unfolding fsync
  fsync-Kept p =
      Holds-system (Kept base May) _
        λ t fs kept. Leaves-if _ (exists p fs) _ _ (λ _. kept) (λ _. tt)

  pub read-Kept : (p : FilePath) → Keeps env (KeptIn base May D) (read p)
  unfolding read
  read-Kept p = Holds-system (Kept base May) _ λ t fs kept. read_case fs kept (stat p fs)
    where
      read_case :
          (fs : Files)
          → Kept base May fs
          → (d : Option Inode) → Leaves (Kept base May) (contents_of d fs)
      read_case fs kept none = tt
      read_case fs kept (some d) = kept

  pub sha256_file-Kept : (p : FilePath) → Keeps env (KeptIn base May D) (sha256_file p)
  unfolding sha256_file
  sha256_file-Kept p = Holds-system (Kept base May) _ λ t fs kept. digest_case fs kept (stat p fs)
    where
      digest_case :
          (fs : Files)
          → Kept base May fs
          → (d : Option Inode) → Leaves (Kept base May) (digest_of env d fs)
      digest_case fs kept none = tt
      digest_case fs kept (some d) = kept

  pub random_text-Kept : Keeps env (KeptIn base May D) random_text
  unfolding random_text
  random_text-Kept = Holds-system (Kept base May) _ λ t fs kept. kept
