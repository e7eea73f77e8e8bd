-- ===== src/Linux/Methods.antt =====
-- The methods of Linux leave alone what stood before, but for the paths that they may touch.
use kavita_ingest.Prelude.{
  ℕ, ◌≡◌, refl, Bool, true, false, not, List, [], ◌∷◌, texts_Eq, nat_Eq, string_Eq,
}
use kavita_ingest.Filesystem.State.{FilePath, parent, Bytes, Files, exists, is_dir}
use kavita_ingest.Filesystem.Kept.{Fresh, Fresh-of_absent}
use kavita_ingest.Journal.Rows.{Db}
use kavita_ingest.Effect.{Env, Exception, Kind, file_exists, when}
use kavita_ingest.Effect.Keeps.{
  Keeps, Reaches, Post, Keeps-bind, Keeps-bind-reached, Keeps-when, Keeps-catch, Keeps-look,
  Keeps-refuse_if, keeps_rules,
}
use kavita_ingest.Effect.Ensures.{
  Ensures, Ensures-pure, Ensures-rethrow, Ensures-bind, Ensures-catch, Ensures-system, Ensures-then,
  OfResult-if, Keeps-bind-ensured,
}
use kavita_ingest.Linux.{
  mkdir, create, publish_mode, settle_directory, accept_directory, make_component, make_all,
  ensure_directory, set_file_mode, make_file_durable, collide, commit, durable_unlink, make_missing,
  ensure_from_existing_ancestor,
}
use kavita_ingest.Linux.Kept.{
  KeptIn, Holds-system, Leaves, Leaves-if, absent_of, mkdir-Kept, link-Kept, create-Kept,
  replace-Kept, chmod-Kept, rmdir-Kept, unlink-Kept, unlink_missing_ok-Kept, fsync-Kept, read-Kept,
  sha256_file-Kept, random_text-Kept,
}

pub ruleset kept_calls = (
  keeps_rules, mkdir-Kept, link-Kept, create-Kept, replace-Kept, chmod-Kept, rmdir-Kept,
  unlink-Kept, unlink_missing_ok-Kept, fsync-Kept, read-Kept, sha256_file-Kept, random_text-Kept,
)

module _ {env : Env} {base : Files} {May : FilePath → Type 0} {D : Db → Type 0} where
  accept_directory-Kept :
      (p : FilePath) (e : Exception) (k : Kind)
      → Keeps env (KeptIn base May D) (accept_directory p e k)
  accept_directory-Kept p e file_exists = search keeps_rules
  accept_directory-Kept p e _ = search keeps_rules

  collide-Kept : (e : Exception) (k : Kind) → Keeps env (KeptIn base May D) (collide e k)
  collide-Kept e file_exists = search keeps_rules
  collide-Kept e _ = search keeps_rules

  -- A path that `mkdir` could make was not there.
  mkdir-Fresh : (p : FilePath) → Ensures env (KeptIn base May D) (mkdir p) (λ _. Fresh base May p)
  unfolding mkdir
  mkdir-Fresh p = Ensures-system _ λ w i.
      OfResult-if _ (exists p w.files) _ _ (λ there. tt)
        λ absent.
          OfResult-if _ (is_dir (parent p) w.files) _ _
            (λ _. Fresh-of_absent i.files p (absent_of p w.files absent)) (λ _. tt)

  create-Fresh :
      (p : FilePath) (bytes : Bytes) (mode : ℕ)
      → Ensures env (KeptIn base May D) (create p bytes mode) (λ _. Fresh base May p)
  unfolding create
  create-Fresh p bytes mode = Ensures-system _ λ w i.
      OfResult-if _ (exists p w.files) _ _ (λ there. tt)
        λ absent.
          OfResult-if _ (is_dir (parent p) w.files) _ _
            (λ _. Fresh-of_absent i.files p (absent_of p w.files absent)) (λ _. tt)

  publish_mode-Kept :
      (p : FilePath) (mode : ℕ)
      → Fresh base May p
      → Keeps env (KeptIn base May D) (publish_mode p mode)
  unfolding publish_mode
  publish_mode-Kept p mode fresh = search kept_calls

  settle_directory-Kept :
      (p : FilePath) (mode : ℕ)
      → Fresh base May p
      → Keeps env (KeptIn base May D) (settle_directory p mode)
  unfolding settle_directory
  settle_directory-Kept p mode fresh = search (kept_calls, publish_mode-Kept)

  accepts :
      (p : FilePath) (e : Exception) (k : Kind)
      → Ensures env (KeptIn base May D) (accept_directory p e k) (λ c. c ≡ true → Fresh base May p)
  accepts p e file_exists =
      Ensures-then _ _ (Keeps-look (is_dir p))
        λ d. Ensures-then _ _ (Keeps-refuse_if (not d) _ _) (λ _. Ensures-pure false (λ h. cc))
  accepts p e _ = Ensures-rethrow e

  when_created :
      (p : FilePath) (mode : ℕ) (c : Bool)
      → (c ≡ true → Fresh base May p)
      → Keeps env (KeptIn base May D) (when c (settle_directory p mode))
  unfolding when
  when_created p mode true fresh = Keeps-when true _ (settle_directory-Kept p mode (fresh refl))
  when_created p mode false fresh = search keeps_rules

  make_component-Kept :
      (p : FilePath) (mode : ℕ) → Keeps env (KeptIn base May D) (make_component p mode)
  unfolding make_component
  make_component-Kept p mode =
      Keeps-bind-ensured {F = λ c. c ≡ true → Fresh base May p} _ _
        (search (kept_calls, accept_directory-Kept))
        (Ensures-catch _ _ (search kept_calls)
          (Ensures-bind _ _ (mkdir-Kept p) (mkdir-Fresh p)
            (λ _ fresh. Ensures-pure true (λ _. fresh)))
          (λ e. accepts p e e.kind))
        (when_created p mode)

  make_all-Kept : (ps : List FilePath) (mode : ℕ) → Keeps env (KeptIn base May D) (make_all ps mode)
  unfolding make_all
  make_all-Kept [] mode = search keeps_rules
  make_all-Kept (p ∷ ps) mode =
      Keeps-bind _ _ (make_component-Kept p mode) (λ _. make_all-Kept ps mode)

  pub ensure_directory-Kept :
      (root target : FilePath) (mode : ℕ)
      → Keeps env (KeptIn base May D) (ensure_directory root target mode)
  unfolding ensure_directory
  ensure_directory-Kept root target mode = search (keeps_rules, make_all-Kept)

  pub set_file_mode-Kept :
      (p : FilePath) (mode : ℕ)
      → Fresh base May p
      → Keeps env (KeptIn base May D) (set_file_mode p mode)
  unfolding set_file_mode
  set_file_mode-Kept p mode fresh = chmod-Kept p mode fresh

  pub make_file_durable-Kept : (p : FilePath) → Keeps env (KeptIn base May D) (make_file_durable p)
  unfolding make_file_durable
  make_file_durable-Kept p = search kept_calls

  pub commit-Kept :
      (staged destination : FilePath)
      → Fresh base May staged
      → Keeps env (KeptIn base May D) (commit staged destination)
  unfolding commit
  commit-Kept staged destination fresh = search (kept_calls, collide-Kept) depth 12

  pub durable_unlink-Kept :
      (p : FilePath) → Fresh base May p → Keeps env (KeptIn base May D) (durable_unlink p)
  unfolding durable_unlink
  durable_unlink-Kept p fresh = search kept_calls

  make_missing-Kept :
      (ps : List FilePath) (mode : ℕ) → Keeps env (KeptIn base May D) (make_missing ps mode)
  unfolding make_missing
  make_missing-Kept [] mode = search keeps_rules
  make_missing-Kept (p ∷ ps) mode = Keeps-bind-ensured _ _ (mkdir-Kept p) (mkdir-Fresh p) λ _ fresh.
      Keeps-bind _ _ (settle_directory-Kept p mode fresh) (λ _. make_missing-Kept ps mode)

  pub ensure_from_existing_ancestor-Kept :
      (target : FilePath) (mode : ℕ)
      → Keeps env (KeptIn base May D) (ensure_from_existing_ancestor target mode)
  unfolding ensure_from_existing_ancestor
  ensure_from_existing_ancestor-Kept target mode = search (keeps_rules, make_missing-Kept)
