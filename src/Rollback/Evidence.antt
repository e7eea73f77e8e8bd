-- ===== src/Rollback/Evidence.antt =====
-- What the files prove where a rollback is offered.
use mathlib.Core.Path.{subst}
use kavita_ingest.Prelude.{
  String, ◌≡◌, refl, sym, ◌∙◌, ap, Bool, true, false, not, ◌&&◌, Option, none, some, ◌==◌,
  string_Eq, eq_iff, arith,
}
use kavita_ingest.Filesystem.State.{FilePath, Inode, Files, exists, stat}
use kavita_ingest.Journal.States.{Policy, preserve, move_after_verify, archive_after_verify, one_of}
use kavita_ingest.Journal.Rows.{ApplyItem}
use kavita_ingest.Effect.{Env, World, ok, done, look}
use kavita_ingest.Effect.Keeps.{Keeps, Keeps-system, keeps_rules}
use kavita_ingest.Effect.Ensures.{
  Of, Ensures, OfResult, Ensures-pure, Ensures-if, Ensures-look, Ensures-system, Ensures-bind,
  Ensures-then, Ensures-weaken,
}
use kavita_ingest.Linux.{sha256_file, digest_of}
use kavita_ingest.Engine.Recover.{file_matches}
use kavita_ingest.Rollback.{
  Action, restore_archive_then_remove_destination, RollbackPreview, expected_hash, unproven,
  preview_preserved, preview_archived, preview_moved, preview_by, published_states,
  preview_published, preview_item,
}

-- A file that has the hash.
pub record HasDigest (env : Env) (fs : Files) (p : FilePath) (hash : String) : Type 0 where
  pub inode : Inode
  pub there : stat p fs ≡ some inode
  pub digest : env.sha256 inode.bytes ≡ hash

-- The original is at its place, or in the archive with its place free.
pub data IsRecoverable (env : Env) (fs : Files) (item : ApplyItem) : Action → Type 0 where
  in_place :
      {a : Action}
      → HasDigest env fs item.source_path item.planned_source_hash
      → IsRecoverable env fs item a
  in_archive :
      (archive : FilePath)
      → item.archive_path ≡ some archive
      → HasDigest env fs archive item.planned_source_hash
      → exists item.source_path fs ≡ false
      → IsRecoverable env fs item restore_archive_then_remove_destination

-- What stands behind an offer to roll back.
pub record IsJustified (env : Env) (fs : Files) (item : ApplyItem) (action : Action) : Type 0 where
  pub published : one_of published_states item.state ≡ true
  pub hash : String
  pub recorded : expected_hash item ≡ some hash
  pub destination : HasDigest env fs item.destination_path hash
  pub original : IsRecoverable env fs item action

module _ (env : Env) (fs : Files) where
  abbrev In : World → Type 0
  In w = w.files ≡ fs

  reads_only :
      (d : Option Inode) (gs hs : Files) (h : String)
      → gs ≡ fs
      → digest_of env d gs ≡ done (h, hs)
      → hs ≡ fs
  reads_only none gs hs h g e = cc
  reads_only (some d) gs hs h g e = cc

  sha256_file-In : (p : FilePath) → Keeps env In (sha256_file p)
  unfolding sha256_file
  sha256_file-In p =
      Keeps-system _ (λ w i. i) (λ w a hs i e. reads_only (stat p w.files) w.files hs a i e)

  file_matches-In : (p : FilePath) (h : Option String) → Keeps env In (file_matches p h)
  unfolding file_matches
  file_matches-In p h = search (keeps_rules, sha256_file-In)

  abbrev Digest : FilePath → String → Type 0
  Digest p h = HasDigest env fs p h

  Digest-found :
      (p : FilePath) (d : Option Inode) (gs : Files)
      → gs ≡ fs
      → stat p gs ≡ d
      → OfResult (Digest p) (digest_of env d gs)
  Digest-found p none gs g e = tt
  Digest-found p (some d) gs g e = record {
    inode = d;
    there = subst (λ l. stat p l ≡ some d) g e;
    digest = refl;
  }

  sha256_file-Ensures : (p : FilePath) → Ensures env In (sha256_file p) (Digest p)
  unfolding sha256_file
  sha256_file-Ensures p = Ensures-system _ (λ w i. Digest-found p (stat p w.files) w.files i refl)

  file_matches-Ensures :
      (p : FilePath) (h : String)
      → Ensures env In (file_matches p (some h)) (λ b. b ≡ true → Digest p h)
  unfolding file_matches
  file_matches-Ensures p h = Ensures-then _ _ (search keeps_rules) λ there.
      Ensures-if there _ _
        (λ e. Ensures-bind _ _ (sha256_file-In p) (sha256_file-Ensures p) λ digest known.
          Ensures-pure _ (λ same. subst (Digest p) ((eq_iff digest h).0 same) known))
        (λ e. Ensures-pure false (λ f. cc))

module _ (env : Env) (fs : Files) (item : ApplyItem) where
  abbrev Sound : RollbackPreview → Type 0
  Sound r = r.reversible ≡ true → IsRecoverable env fs item r.action

  unproven-Sound : Ensures env (In env fs) (unproven item) Sound
  unfolding unproven
  unproven-Sound = Ensures-pure _ (λ f. cc)

  look_exists : (p : FilePath) → Ensures env (In env fs) (look (exists p)) (λ b. exists p fs ≡ b)
  look_exists p = Ensures-look (exists p) (λ w i. ap (exists p) (sym i))

  module _ (source_valid : Bool)
      (source : source_valid ≡ true
        → HasDigest env fs item.source_path item.planned_source_hash) where
    preview_archived-Sound :
        (o : Option FilePath)
        → item.archive_path ≡ o
        → Ensures env (In env fs) (preview_archived item source_valid o) Sound
    unfolding preview_archived
    preview_archived-Sound none e = unproven-Sound
    preview_archived-Sound (some archive) e =
        Ensures-bind _ _ (file_matches-In env fs archive _)
          (file_matches-Ensures env fs archive item.planned_source_hash)
          λ valid archived.
            Ensures-bind _ _ (search keeps_rules) (look_exists item.source_path) λ there gone.
              Ensures-if source_valid _ _ (λ s. Ensures-pure _ (λ t. in_place (source s)))
                (λ s.
                  Ensures-if (valid && not there) _ _
                    (λ b.
                      Ensures-pure _
                        (λ t. in_archive archive e (archived (ground arith)) (gone ∙ ground arith)))
                    (λ b. unproven-Sound))

    preview_by-Sound : (p : Policy) → Ensures env (In env fs) (preview_by p item source_valid) Sound
    unfolding preview_preserved preview_moved
    preview_by-Sound preserve =
        Ensures-if source_valid _ _ (λ s. Ensures-pure _ (λ t. in_place (source s)))
          (λ s. unproven-Sound)
    preview_by-Sound archive_after_verify = preview_archived-Sound item.archive_path refl
    preview_by-Sound move_after_verify =
        Ensures-then _ _ (search keeps_rules)
          λ there. Ensures-if (not there) _ _ (λ s. Ensures-pure _ (λ f. cc)) (λ s. unproven-Sound)

  abbrev Justified : RollbackPreview → Type 0
  Justified r = r.reversible ≡ true → IsJustified env fs item r.action

  preview_published-Justified :
      one_of published_states item.state ≡ true
      → (o : Option String) → expected_hash item ≡ o
      → Ensures env (In env fs) (preview_published item o) Justified
  unfolding preview_published
  preview_published-Justified published none e = Ensures-pure _ (λ f. cc)
  preview_published-Justified published (some hash) e =
      Ensures-then _ _ (search keeps_rules) λ there.
        Ensures-if (not there) _ _ (λ n. Ensures-pure _ (λ f. cc))
          λ n.
            Ensures-bind _ _ (sha256_file-In env fs item.destination_path)
              (sha256_file-Ensures env fs item.destination_path)
              λ digest known.
                Ensures-if (not (digest == hash)) _ _ (λ d. Ensures-pure _ (λ f. cc))
                  λ d.
                    Ensures-bind _ _ (file_matches-In env fs item.source_path _)
                      (file_matches-Ensures env fs item.source_path item.planned_source_hash)
                      λ valid source.
                        Ensures-weaken _
                          (λ r sound offer. record {
                            published = published;
                            hash = hash;
                            recorded = e;
                            destination =
                                subst (HasDigest env fs item.destination_path)
                                  ((eq_iff digest hash).0 (ground arith)) known;
                            original = sound offer;
                          })
                          (preview_by-Sound valid source item.lifecycle_policy)

  preview_item-Justified : Ensures env (In env fs) (preview_item item) Justified
  unfolding preview_item
  preview_item-Justified =
      Ensures-if (not (one_of published_states item.state)) _ _ (λ n. Ensures-pure _ (λ f. cc))
        (λ n. preview_published-Justified (ground arith) (expected_hash item) refl)

-- Whatever fails, an item whose rollback is offered was published, its destination still holds the
-- bytes of the recorded hash, and the original of the planned hash is at its place, or in the
-- archive with its place free.
pub preview_item-IsJustified :
    (env : Env) (item : ApplyItem) (w : World) (r : RollbackPreview)
    → (preview_item item env w).0 ≡ ok r
    → r.reversible ≡ true
    → IsJustified env w.files item r.action
preview_item-IsJustified env item w r e offer =
    subst (Of (Justified env w.files item)) e ((preview_item-Justified env w.files item).of w refl)
      offer
