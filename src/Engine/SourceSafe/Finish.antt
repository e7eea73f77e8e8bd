-- ===== src/Engine/SourceSafe/Finish.antt =====
-- From the commit to the end of the lifecycle: verification comes before the source goes.
use kavita_ingest.Prelude.{
  String, ◌≡◌, ◌≢◌, refl, sym, ap, ◌∙◌, ◌⊎◌, inl, inr, false, not, Option, none, some, ◌==◌,
  string_Eq, eq_iff, List, arith,
}
use kavita_ingest.Filesystem.State.{FilePath, Bytes, Files}
use kavita_ingest.Filesystem.Contents.{HasBytes, Stable, HasBytes-Stable, HasBytes-unique}
use kavita_ingest.Journal.States.{
  ItemState, Policy, preserve, move_after_verify, archive_after_verify,
}
use kavita_ingest.Journal.Rows.{Evidence, Detail, Field}
use kavita_ingest.Journal.Keeping.{Anything, Anything-Journaling}
use kavita_ingest.Journal.Repository.{transition}
use kavita_ingest.Effect.{Env, World, M}
use kavita_ingest.Effect.Keeps.{Keeps, keeps_rules}
use kavita_ingest.Effect.Triples.{
  Triple, Triple-pure, Triple-bind, Triple-then, Triple-refuse_if, Triple-from_option, Triple-keeps,
  Triple-weaken, Triple-given, Triple-post,
}
use kavita_ingest.Linux.Kept.{KeptIn}
use kavita_ingest.Linux.Methods.{durable_unlink-Kept}
use kavita_ingest.Engine.Item.{PreparedItem, Verification, Externals}
use kavita_ingest.Engine.Execute.{
  verify, verify_committed, require_valid, archive_by, archive_source, finish_by, finish_preserved,
  finish_cleanup, finish_lifecycle, remove_empty_staging,
}
use kavita_ingest.Engine.Touch.{
  Staging, Touchable, in_area, Area, Staging-Area, Touchable-Area, source-Fresh,
}
use kavita_ingest.Engine.NoClobber.{
  file_calls, transition-Kept, revalidate_source-Kept, remove_empty_staging-Kept,
}
use kavita_ingest.Engine.SourceSafe.{
  IsCopied, IsArchived, IsPublished, Intact, Keeps-Stable, Stable-and, IsCopied-Stable,
  IsArchived-Stable, read-Triple, sha256_file-Triple,
}

module _ (env : Env) (x : Externals) (item : PreparedItem) (original : Bytes)
    (source_apart : ¬ Staging item none item.source)
    (destination_apart : ¬ Touchable item none item.destination)
    (archive_apart : (archive : FilePath)
      → item.archive_path ≡ some archive
      → ¬ Touchable item none archive) where
  abbrev pub StagedArea : FilePath → Type 0
  StagedArea = Staging item none

  -- The source is there with its bytes.
  abbrev pub Here : Files → Type 0
  Here = HasBytes item.source original

  abbrev pub Copied : Files → Type 0
  Copied = IsCopied x item original

  -- The source is there, or it has been published.
  abbrev pub Safe : World → Type 0
  Safe w = Here w.files ⊎ IsPublished env x item original w.files

  abbrev pub Held : (Files → Type 0) → World → Type 0
  Held J w = Intact J w.files

  pub Here-Stable : Stable StagedArea Here
  Here-Stable = HasBytes-Stable StagedArea item.source original source_apart

  in_stage : (p : FilePath) → ¬ Touchable item none p → ¬ StagedArea p
  in_stage p h t = h (in_area t)

  Copied-Stable : Stable StagedArea Copied
  Copied-Stable =
      IsCopied-Stable StagedArea x item original (in_stage item.destination destination_apart)

  abbrev pub Both : Files → Type 0
  Both fs = Here fs × Copied fs

  Both-Stable : Stable StagedArea Both
  Both-Stable = Stable-and StagedArea Here Copied Here-Stable Copied-Stable

  pub Here-Safe : (w : World) → Held Here w → Safe w
  Here-Safe w h = inl h.holds

  pub Both-Safe : (w : World) → Held Both w → Safe w
  Both-Safe w h = inl h.holds.0

  -- What the verifier is given are the source's bytes and the candidate's.
  verify-Triple :
      (p : FilePath)
      → Triple env
          (Held Here)
          (verify x item p)
          (λ v w.
            Held Here w
            × ((bytes : Bytes) × HasBytes p bytes w.files × (v ≡ x.verify item original bytes)))
          Safe
  unfolding verify
  verify-Triple p =
      Triple-bind _ _
        (read-Triple (Intact Here) (λ fs. Here fs ⊎ IsPublished env x item original fs)
          (λ fs h. inl h.holds) item.source)
        λ source.
          Triple-bind _ _
            (read-Triple (λ fs. Intact Here fs × HasBytes item.source source fs)
              (λ fs. Here fs ⊎ IsPublished env x item original fs) (λ fs h. inl h.0.holds) p)
            λ candidate. Triple-pure _ λ w h. (
              h.0.0,
              (
                candidate,
                h.1,
                ap (λ b. x.verify item b candidate)
                    (HasBytes-unique item.source source original w.files h.0.1 h.0.0.holds),
              ),
            )

  -- Anything that touches the staging area only keeps the source.
  pub stays :
      {A : Type 0} (m : M A)
      → ((base : Files) → Keeps env (KeptIn base StagedArea Anything) m)
      → Keeps env (Held Here) m
  stays m h = Keeps-Stable StagedArea Here m Here-Stable h

  pub stays-Both :
      {A : Type 0} (m : M A)
      → ((base : Files) → Keeps env (KeptIn base StagedArea Anything) m)
      → Keeps env (Held Both) m
  stays-Both m h = Keeps-Stable StagedArea Both m Both-Stable h

  pub verify_committed-Triple :
      (e : Option Evidence)
      → Triple env (Held Here) (verify_committed x item e) (λ u. Held Both) Safe
  unfolding verify_committed require_valid
  verify_committed-Triple e = Triple-then _ _ (search keeps_rules) Here-Safe λ there.
      Triple-then _ _ (search keeps_rules) Here-Safe λ u.
        Triple-then _ _ (search keeps_rules) Here-Safe λ evidence.
          Triple-then _ _ (search keeps_rules) Here-Safe λ size.
            Triple-then _ _ (search keeps_rules) Here-Safe λ u2.
              Triple-then _ _ (stays _ (λ base. search file_calls)) Here-Safe λ digest.
                Triple-then _ _ (search keeps_rules) Here-Safe λ u3.
                  Triple-then _ _ (search keeps_rules) Here-Safe λ mode.
                    Triple-then _ _ (search keeps_rules) Here-Safe λ u4.
                      Triple-bind _ _ (verify-Triple item.destination) λ v.
                        Triple-refuse_if (not v.valid) _ _ (λ w valid h. joined w v valid h.0 h.1)
                          (λ w h. Here-Safe w h.0)
    where
      joined :
          (w : World) (v : Verification)
          → not v.valid ≡ false
          → Held Here w
          → ((bytes : Bytes) × HasBytes item.destination bytes w.files
              × (v ≡ x.verify item original bytes))
          → Held Both w
      joined w v valid here (bytes, there, same) = record {
        bounded = here.bounded;
        holds = (
          here.holds,
          record {
            bytes = bytes;
            there = there;
            verified = ap (λ r. r.valid) (sym same) ∙ ground (arith, valid);
          },
        );
      }

  -- What the archiving of the source shows, where its lifecycle wants an archive.
  abbrev Filed : Files → Type 0
  Filed fs = item.lifecycle_policy ≡ archive_after_verify → IsArchived env item fs

  Filed-Stable :
      (May : FilePath → Type 0)
      → ((p : FilePath) → May p → Touchable item none p)
      → Stable May Filed
  Filed-Stable May within = record {
    stays = λ base fs bounded kept h policy.
        (IsArchived-Stable May env item (λ a planned m. archive_apart a planned (within a m))).stays
          base fs bounded kept (h policy);
  }

  archive_after-Triple :
      Triple env
        (Held Both)
        (archive_by archive_after_verify item)
        (λ a w. Held Both w × IsArchived env item w.files)
        Safe
  archive_after-Triple =
      Triple-bind _ _ (Triple-from_option item.archive_path _ _ Both-Safe) λ archive.
        Triple-given _ λ planned.
          Triple-then _ _ (stays-Both _ (λ base. search file_calls)) Both-Safe λ u.
            Triple-bind _ _
              (sha256_file-Triple (Intact Both) (λ fs. Here fs ⊎ IsPublished env x item original fs)
                (λ fs h. inl h.holds.0) archive)
              λ digest.
                Triple-bind _ _
                  (Triple-refuse_if (not (digest == item.source_hash)) _ _
                    (λ w same h. (h.0, filed w archive digest planned same h.1))
                    (λ w h. Both-Safe w h.0))
                  λ u2. Triple-pure _ (λ w h. h)
    where
      filed :
          (w : World) (archive : FilePath) (digest : String)
          → item.archive_path ≡ some archive
          → not (digest == item.source_hash) ≡ false
          → ((bytes : Bytes) × HasBytes archive bytes w.files × (env.sha256 bytes ≡ digest))
          → IsArchived env item w.files
      filed w archive digest planned same (bytes, there, hash) = record {
        archive = archive;
        planned = planned;
        bytes = bytes;
        there = there;
        hash = hash ∙ (eq_iff digest item.source_hash).0 (ground (arith, same));
      }

  abbrev Ready : Files → Type 0
  Ready fs = Copied fs × Filed fs

  archive_source-Triple :
      Triple env (Held Both) (archive_source item) (λ a w. Held (λ fs. Here fs × Ready fs) w) Safe
  unfolding archive_source
  archive_source-Triple = by item.lifecycle_policy refl
    where
      none_wanted :
          (p : Policy)
          → item.lifecycle_policy ≡ p
          → (p ≡ archive_after_verify → ⊥)
          → (w : World) → Held Both w
          → Held (λ fs. Here fs × Ready fs) w
      none_wanted p e other w h = record {
        bounded = h.bounded;
        holds = (h.holds.0, (h.holds.1, λ f. absurd (other (sym e ∙ f))));
      }

      by :
          (p : Policy)
          → item.lifecycle_policy ≡ p
          → Triple env
              (Held Both)
              (archive_by p item)
              (λ a w. Held (λ fs. Here fs × Ready fs) w)
              Safe
      by preserve e = Triple-pure _ (none_wanted preserve e (λ f. cc))
      by move_after_verify e = Triple-pure _ (none_wanted move_after_verify e (λ f. cc))
      by archive_after_verify e =
          Triple-post _ archive_after-Triple
            (λ a w h. record {
              bounded = h.0.bounded;
              holds = (h.0.holds.0, (h.0.holds.1, λ f. h.1));
            })
            (λ w h. h)

  stage-Area : (base : Files) → Area base StagedArea item
  stage-Area base = Staging-Area base item none

  pub moves :
      (run_id : String) (to : ItemState) (d : Detail) (fs : List Field)
      → Keeps env (Held Here) (transition run_id item.item_id to d fs)
  moves run_id to d fs =
      stays _ (λ base. transition-Kept Anything-Journaling run_id item.item_id to d fs)

  tidies : Keeps env (Held Here) (remove_empty_staging item.staging_directory)
  tidies = stays _ (λ base.
      remove_empty_staging-Kept env base StagedArea Anything item Anything-Journaling
        (stage-Area base))

  finish_preserved-Safe :
      (run_id : String) → Triple env (Held Here) (finish_preserved run_id item) (λ u. Safe) Safe
  unfolding finish_preserved
  finish_preserved-Safe run_id =
      Triple-then _ _ (moves run_id _ _ _) Here-Safe
        λ t. Triple-post _ (Triple-keeps _ tidies Here-Safe) (λ u w h. Here-Safe w h) (λ w h. h)

  -- Behind the removal of the source.
  abbrev Over : World → Type 0
  Over = Held Ready

  Ready-Stable : Stable (Touchable item none) Ready
  Ready-Stable =
      Stable-and (Touchable item none) Copied Filed
        (IsCopied-Stable (Touchable item none) x item original destination_apart)
        (Filed-Stable (Touchable item none) (λ p t. t))

  after_removal :
      {A : Type 0} (m : M A)
      → ((base : Files) → Keeps env (KeptIn base (Touchable item none) Anything) m)
      → Keeps env Over m
  after_removal m h = Keeps-Stable (Touchable item none) Ready m Ready-Stable h

  module _ (given_up : item.lifecycle_policy ≢ preserve) where
    Over-Safe : (w : World) → Over w → Safe w
    Over-Safe w h = inr (record { given_up = given_up; copied = h.holds.0; archived = h.holds.1 })

    finish_cleanup-Safe :
        (run_id : String) → Triple env (Held Both) (finish_cleanup run_id item) (λ u. Safe) Safe
    unfolding finish_cleanup
    finish_cleanup-Safe run_id =
        Triple-then _ _
          (stays-Both _ (λ base. transition-Kept Anything-Journaling run_id item.item_id _ _ _))
          Both-Safe
          λ t. Triple-then _ _ (stays-Both _ (λ base. revalidate_source-Kept item)) Both-Safe λ u.
            Triple-bind _ _ archive_source-Triple λ archived.
              Triple-weaken _ (λ w h. record { bounded = h.bounded; holds = h.holds.1 })
                (Triple-then _ _
                  (after_removal _
                    (λ base. durable_unlink-Kept item.source (source-Fresh base item none)))
                  Over-Safe
                  λ u2.
                    Triple-then _ _
                      (after_removal _
                        (λ base. transition-Kept Anything-Journaling run_id item.item_id _ _ _))
                      Over-Safe
                      λ t2.
                        Triple-then _ _
                          (after_removal _
                            (λ base. transition-Kept Anything-Journaling run_id item.item_id _ _ _))
                          Over-Safe
                          λ t3.
                            Triple-post _
                              (Triple-keeps _
                                (after_removal _ (λ base.
                                  remove_empty_staging-Kept env base (Touchable item none) Anything
                                    item Anything-Journaling (Touchable-Area base item none)))
                                Over-Safe)
                              (λ u3 w h. Over-Safe w h) (λ w h. h))

  pub finish_lifecycle-Safe :
      (run_id : String) → Triple env (Held Both) (finish_lifecycle run_id item) (λ u. Safe) Safe
  unfolding finish_lifecycle
  finish_lifecycle-Safe run_id = by item.lifecycle_policy refl
    where
      by :
          (p : Policy)
          → item.lifecycle_policy ≡ p
          → Triple env (Held Both) (finish_by p run_id item) (λ u. Safe) Safe
      by preserve e =
          Triple-weaken _ (λ w h. record { bounded = h.bounded; holds = h.holds.0 })
            (finish_preserved-Safe run_id)
      by move_after_verify e = finish_cleanup-Safe (λ f. cc) run_id
      by archive_after_verify e = finish_cleanup-Safe (λ f. cc) run_id
