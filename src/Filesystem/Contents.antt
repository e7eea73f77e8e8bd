-- ===== src/Filesystem/Contents.antt =====
-- The bytes behind a path, and what keeps them there.
use kavita_ingest.Prelude.{ℕ, ◌≡◌, refl, sym, ap, ◌∙◌, Option, none, some}
use kavita_ingest.Filesystem.State.{
  FilePath, Bytes, Node, directory, file, Inode, Files, node_at, inode_at, file_inode, inode_under,
  stat,
}
use kavita_ingest.Filesystem.Kept.{Kept, IsBounded, bytes_of}

pub record HasBytes (p : FilePath) (bytes : Bytes) (fs : Files) : Type 0 where
  pub inode : ℕ
  pub names : node_at fs p ≡ some (file inode)
  pub holds : bytes_of (inode_at fs inode) ≡ some bytes

-- A property of the files that no change breaks which leaves alone all but the paths in `May`.
pub record Stable (May : FilePath → Type 0) (J : Files → Type 0) : Type 0 where
  pub stays : (base fs : Files) → IsBounded base → Kept base May fs → J base → J fs

pub HasBytes-Stable :
    (May : FilePath → Type 0) (p : FilePath) (bytes : Bytes)
    → ¬ May p
    → Stable May (HasBytes p bytes)
HasBytes-Stable May p bytes apart = record {
  stays = λ base fs bounded kept h. record {
    inode = h.inode;
    names = kept.paths p (file h.inode) apart h.names;
    holds = kept.contents h.inode (bounded p h.inode h.names) ∙ h.holds;
  };
}

pub stat-HasBytes :
    (fs : Files) (p : FilePath) (d : Inode) → stat p fs ≡ some d → HasBytes p d.bytes fs
unfolding stat
stat-HasBytes fs p d h = by (node_at fs p) refl h
  where
    by :
        (n : Option Node)
        → node_at fs p ≡ n
        → inode_under fs (file_inode n) ≡ some d
        → HasBytes p d.bytes fs
    by none e h = cc
    by (some (directory m)) e h = cc
    by (some (file i)) e h = record { inode = i; names = e; holds = ap bytes_of h }

-- A path has one content.
pub HasBytes-unique :
    (p : FilePath) (a b : Bytes) (fs : Files) → HasBytes p a fs → HasBytes p b fs → a ≡ b
HasBytes-unique p a b fs h k =
    let same : h.inode ≡ k.inode = file_injective (some_injective (sym h.names ∙ k.names)) in
    some_injective (sym h.holds ∙ ap (λ i. bytes_of (inode_at fs i)) same ∙ k.holds)
  where
    some_injective : {A : Type 0} {x y : A} → some x ≡ some y → x ≡ y
    some_injective e = cc

    file_injective : {i j : ℕ} → file i ≡ file j → i ≡ j
    file_injective e = cc
