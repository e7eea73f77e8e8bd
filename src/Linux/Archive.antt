-- ===== src/Linux/Archive.antt =====
-- `copy_for_archive` leaves alone what stood before: its staging file is a new one.
use kavita_ingest.Prelude.{
  ℕ, String, ◌≡◌, refl, ◌≤◌, ◌<◌, Bool, true, false, Option, none, some, [], ◌==◌, texts_Eq,
  texts_eq_iff, nat_Eq, string_Eq, lookup-insert, lookup-erase, arith, if◌then◌else◌,
}
use kavita_ingest.Filesystem.State.{
  FilePath, parent, Bytes, Node, directory, file, Inode, Files, node_at, inode_at, exists, is_file,
  is_dir, stat, file_inode, set_node, drop_node, set_inode, new_file,
}
use kavita_ingest.Filesystem.Kept.{
  Kept, Fresh, Fresh-of_absent, Kept-set_inode, Kept-drop_node, Kept-set_node, Kept-new_file,
}
use kavita_ingest.Journal.Rows.{Db}
use kavita_ingest.Effect.{Env, Exception, Kind, file_exists, ◌>>◌, try_finally}
use kavita_ingest.Effect.Keeps.{
  Keeps, Reaches, Reaches-system, Keeps-bind, Keeps-bind-reached, Keeps-try_finally, keeps_rules,
}
use kavita_ingest.Linux.{
  fsync, link, unlink, unlink_missing_ok, create, write, read, sha256_file, collide, commit,
  archive_stage, fill_archive, copy_for_archive, linked, rewritten, rewritten_inode, contents_of,
  digest_of,
}
use kavita_ingest.Linux.Kept.{
  KeptIn, Holds, Holds-system, Leaves, Leaves-if, Leaves_at, absent_of, random_text-Kept,
}
use kavita_ingest.Linux.Methods.{ensure_from_existing_ancestor-Kept}

-- The files are kept, and the file at `tmp`, if there is one, is new.
pub record KeptNew (base : Files) (May : FilePath → Type 0) (tmp : FilePath) (fs : Files)
    : Type 0 where
  pub kept : Kept base May fs
  pub fresh : Fresh base May tmp
  pub newer : (i : ℕ) → node_at fs tmp ≡ some (file i) → base.next ≤ i

module _ (D : Db → Type 0) (env : Env) (base : Files) (May : FilePath → Type 0)
    (tmp : FilePath) where
  fsync-New : (p : FilePath) → Keeps env (Holds (KeptNew base May tmp) D) (fsync p)
  unfolding fsync
  fsync-New p =
      Holds-system (KeptNew base May tmp) _
        λ t fs h. Leaves-if _ (exists p fs) _ _ (λ _. h) (λ _. tt)

  contents-New :
      (fs : Files) (d : Option Inode)
      → KeptNew base May tmp fs
      → Leaves (KeptNew base May tmp) (contents_of d fs)
  contents-New fs none h = tt
  contents-New fs (some d) h = h

  read-New : (p : FilePath) → Keeps env (Holds (KeptNew base May tmp) D) (read p)
  unfolding read
  read-New p = Holds-system (KeptNew base May tmp) _ λ t fs h. contents-New fs (stat p fs) h

  digest-New :
      (fs : Files) (d : Option Inode)
      → KeptNew base May tmp fs
      → Leaves (KeptNew base May tmp) (digest_of env d fs)
  digest-New fs none h = tt
  digest-New fs (some d) h = h

  sha256_file-New : (p : FilePath) → Keeps env (Holds (KeptNew base May tmp) D) (sha256_file p)
  unfolding sha256_file
  sha256_file-New p = Holds-system (KeptNew base May tmp) _ λ t fs h. digest-New fs (stat p fs) h

  drop-New : (fs : Files) → KeptNew base May tmp fs → KeptNew base May tmp (drop_node tmp fs)
  drop-New fs h = record {
    kept = Kept-drop_node h.kept tmp h.fresh;
    fresh = h.fresh;
    newer = λ i e. dropped i e;
  }
    where
      dropped : (i : ℕ) → node_at (drop_node tmp fs) tmp ≡ some (file i) → base.next ≤ i
      dropped i =
          unfold drop_node node_at in rw (lookup-erase, (texts_eq_iff tmp tmp).1 refl) (λ e. cc)

  unlink-New : Keeps env (Holds (KeptNew base May tmp) D) (unlink tmp)
  unfolding unlink
  unlink-New =
      Holds-system (KeptNew base May tmp) _
        λ t fs h. Leaves-if _ (is_file tmp fs) _ _ (λ _. drop-New fs h) (λ _. tt)

  unlink_missing_ok-New : Keeps env (Holds (KeptNew base May tmp) D) (unlink_missing_ok tmp)
  unfolding unlink_missing_ok
  unlink_missing_ok-New =
      Holds-system (KeptNew base May tmp) _
        λ t fs h. Leaves-if _ (is_file tmp fs) _ _ (λ _. drop-New fs h) (λ _. h)

  write_inode-New :
      (fs : Files) (bytes : Bytes) (i : ℕ) (d : Option Inode)
      → base.next ≤ i
      → KeptNew base May tmp fs
      → Leaves (KeptNew base May tmp) (rewritten_inode bytes i d fs)
  unfolding set_inode node_at
  write_inode-New fs bytes i none new h = tt
  write_inode-New fs bytes i (some d) new h = record {
    kept = Kept-set_inode h.kept i _ (λ lt. absurd (omega arith));
    fresh = h.fresh;
    newer = h.newer;
  }

  write-New : (bytes : Bytes) → Keeps env (Holds (KeptNew base May tmp) D) (write tmp bytes)
  unfolding write
  write-New bytes =
      Holds-system (KeptNew base May tmp) _ λ t fs h. node_case fs (node_at fs tmp) h refl
    where
      node_case :
          (fs : Files) (n : Option Node)
          → KeptNew base May tmp fs
          → node_at fs tmp ≡ n
          → Leaves (KeptNew base May tmp) (rewritten bytes (file_inode n) fs)
      node_case fs none h e = tt
      node_case fs (some (directory m)) h e = tt
      node_case fs (some (file i)) h e = write_inode-New fs bytes i (inode_at fs i) (h.newer i e) h

  set-New :
      (fs : Files) (to : FilePath) (i : ℕ)
      → KeptNew base May tmp fs
      → Fresh base May to
      → base.next ≤ i
      → i < fs.next
      → KeptNew base May tmp (set_node to (file i) fs)
  set-New fs to i h fresh new below = record {
    kept = Kept-set_node h.kept to _ fresh (λ j e. ground arith);
    fresh = h.fresh;
    newer = λ j e. at_set j e;
  }
    where
      at_set : (j : ℕ) → node_at (set_node to (file i) fs) tmp ≡ some (file j) → base.next ≤ j
      at_set j = unfold set_node node_at in rw lookup-insert (cases j (to == tmp))
        where
          cases :
              (j : ℕ) (b : Bool)
              → (if b then some (file i) else node_at fs tmp) ≡ some (file j)
              → base.next ≤ j
          cases j true e = ground arith
          cases j false e = h.newer j e

  linked_case :
      (fs : Files) (to : FilePath) (n : Option Node)
      → KeptNew base May tmp fs
      → Fresh base May to
      → node_at fs tmp ≡ n
      → Leaves (KeptNew base May tmp) (linked to n fs)
  linked_case fs to none h fresh e = tt
  linked_case fs to (some (directory m)) h fresh e = tt
  linked_case fs to (some (file i)) h fresh e =
      set-New fs to i h fresh (h.newer i e) (h.kept.bounded tmp i e)

  link-New : (to : FilePath) → Keeps env (Holds (KeptNew base May tmp) D) (link tmp to)
  unfolding link
  link-New to = Holds-system (KeptNew base May tmp) _ λ t fs h.
      Leaves-if _ (exists to fs) _ _ (λ there. tt)
        λ absent.
          Leaves-if _ (is_dir (parent to) fs) _ _
            (λ _.
              linked_case fs to (node_at fs tmp) h
                (Fresh-of_absent h.kept to (absent_of to fs absent)) refl)
            (λ _. tt)

  collide-New :
      (e : Exception) (k : Kind) → Keeps env (Holds (KeptNew base May tmp) D) (collide e k)
  collide-New e file_exists = search keeps_rules
  collide-New e _ = search keeps_rules

  commit-New : (to : FilePath) → Keeps env (Holds (KeptNew base May tmp) D) (commit tmp to)
  unfolding commit
  commit-New to = search (keeps_rules, fsync-New, link-New, collide-New, unlink-New) depth 12

  fill_archive-New :
      (source archive : FilePath) (expected : String)
      → Keeps env (Holds (KeptNew base May tmp) D) (fill_archive source tmp archive expected)
  unfolding fill_archive
  fill_archive-New source archive expected =
      search (keeps_rules, read-New, write-New, fsync-New, sha256_file-New, commit-New) depth 12

  create-New :
      (mode : ℕ)
      → Reaches env (KeptIn base May D) (Holds (KeptNew base May tmp) D) (create tmp [] mode)
  unfolding create
  create-New mode =
      Reaches-system _ _ env _ (λ w i. i)
        λ w a fs i e. record {
          files =
              Leaves_at (KeptNew base May tmp) _
                (Leaves-if _ (exists tmp w.files) _ _ (λ there. tt)
                  λ absent.
                    Leaves-if _ (is_dir (parent tmp) w.files) _ _
                      (λ _.
                        created w.files i.files
                          (Fresh-of_absent i.files tmp (absent_of tmp w.files absent)))
                      (λ _. tt))
                e;
          tables = i.tables;
        }
    where
      created :
          (fs : Files)
          → Kept base May fs
          → Fresh base May tmp
          → KeptNew base May tmp (new_file tmp (record { bytes = []; mode = mode }) fs)
      created fs kept fresh = record {
        kept = Kept-new_file kept tmp _ fresh;
        fresh = fresh;
        newer = λ i.
            unfold new_file node_at in
            rw (lookup-insert, (texts_eq_iff tmp tmp).1 refl) (λ e. ground (arith, kept.grown));
      }

  fill_new_archive :
      (source archive : FilePath) (expected : String)
      → Keeps env (KeptIn base May D) (do
        create tmp [] 384
        try_finally (fill_archive source tmp archive expected) (unlink_missing_ok tmp))
  fill_new_archive source archive expected =
      Keeps-bind-reached _ _ (create-New 384)
        (λ _.
          Keeps-try_finally _ _ (fill_archive-New source archive expected) unlink_missing_ok-New)
        (λ w h. record { files = h.files.kept; tables = h.tables })

pub copy_for_archive-Kept :
    {env : Env} {base : Files} {May : FilePath → Type 0} {D : Db → Type 0}
    (source archive : FilePath) (expected : String) (mode : ℕ)
    → Keeps env (KeptIn base May D) (copy_for_archive source archive expected mode)
unfolding copy_for_archive
copy_for_archive-Kept {env} {base} {May} {D} source archive expected mode =
    Keeps-bind _ _ (ensure_from_existing_ancestor-Kept (parent archive) mode) λ _.
      Keeps-bind _ _ random_text-Kept λ token.
        fill_new_archive D env base May (archive_stage archive token) source archive expected
