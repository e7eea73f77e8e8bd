-- ===== src/Filesystem/Kept.antt =====
-- What a change of the files leaves alone: every path that stood before, but for those that may be
-- touched, and the bytes of every file that stood before.
use mathlib.Core.Path.{subst}
use kavita_ingest.Prelude.{
  Bool, true, lookup, insert, false, Bool-cases, inl, inr, ℕ, suc, ◌≤◌, ◌<◌, ◌≡◌, refl, Option,
  none, some, List, [], ◌∷◌, all, ltb, ◌==◌, texts_Eq, nat_Eq, texts_eq_iff, nat_eq_iff,
  lookup-insert, lookup-erase, if◌then◌else◌, arith,
}
use kavita_ingest.Filesystem.State.{
  FilePath, Bytes, Node, directory, file, Inode, Files, node_at, inode_at, set_node, drop_node,
  set_inode, new_file,
}

abbrev pub bytes_of : Option Inode → Option Bytes
bytes_of none = none
bytes_of (some d) = some d.bytes

-- Every file has an inode that was allocated.
abbrev pub IsBounded : Files → Type 0
IsBounded fs = (p : FilePath) (i : ℕ) → node_at fs p ≡ some (file i) → i < fs.next

-- A test of it.
abbrev pub below : ℕ → FilePath × Node → Bool
below next (p, directory m) = true
below next (p, file i) = ltb i next

bounded_among :
    (next : ℕ) (p : FilePath) (i : ℕ) (nodes : List (FilePath × Node))
    → all (below next) nodes ≡ true
    → lookup p nodes ≡ some (file i)
    → i < next
unfolding lookup
bounded_among next p i [] h e = cc
bounded_among next p i ((q, n) ∷ nodes) h e =
    by (q == p) n h (λ g. bounded_among next p i nodes g) e
  where
    by :
        (b : Bool) (n : Node)
        → all (below next) ((q, n) ∷ nodes) ≡ true
        → (all (below next) nodes ≡ true → lookup p nodes ≡ some (file i) → i < next)
        → (if b then some n else lookup p nodes) ≡ some (file i)
        → i < next
    by true (directory m) g rest f = cc
    by true (file j) g rest f = ground arith
    by false (directory m) g rest f = rest g f
    by false (file j) g rest f = rest (ground arith) f

pub IsBounded-of : (fs : Files) → all (below fs.next) fs.nodes ≡ true → IsBounded fs
unfolding node_at
IsBounded-of fs h p i e = bounded_among fs.next p i fs.nodes h e

pub record Kept (base : Files) (May : FilePath → Type 0) (fs : Files) : Type 0 where
  pub paths : (p : FilePath) (n : Node) → ¬ May p → node_at base p ≡ some n → node_at fs p ≡ some n
  pub contents : (i : ℕ) → i < base.next → bytes_of (inode_at fs i) ≡ bytes_of (inode_at base i)
  pub grown : base.next ≤ fs.next
  pub bounded : IsBounded fs

-- A path that stood before may be touched, or is there since.
abbrev pub Fresh : Files → (FilePath → Type 0) → FilePath → Type 0
Fresh base May p = (n : Node) → ¬ May p → node_at base p ≡ some n → ⊥

not-Fresh :
    (base : Files) (May : FilePath → Type 0) (p q : FilePath) (n : Node)
    → Fresh base May p
    → ¬ May q
    → node_at base q ≡ some n
    → (p == q) ≡ false
not-Fresh base May p q n fresh h e = elim (Bool-cases (p == q)) [
  | inl same ↦ absurd (subst (Fresh base May) ((texts_eq_iff p q).0 same) fresh n h e)
  | inr other ↦ other
]

pub Kept-refl : (fs : Files) (May : FilePath → Type 0) → IsBounded fs → Kept fs May fs
Kept-refl fs May sound = record {
  paths = λ p n h e. e;
  contents = λ i h. refl;
  grown = omega arith;
  bounded = sound;
}

at_insert :
    (fs : Files) (p q : FilePath) (n : Node) (i k : ℕ)
    → ((j : ℕ) → n ≡ file j → j < k)
    → (node_at fs q ≡ some (file i) → i < k)
    → node_at (set_node p n fs) q ≡ some (file i)
    → i < k
unfolding node_at set_node
at_insert fs p q n i k new old = rw lookup-insert (by_path (p == q))
  where
    by_path :
        (b : Bool)
        → (if b then some n else lookup {Key = FilePath} q fs.nodes) ≡ some (file i)
        → i < k
    by_path true e = new i (cc)
    by_path false e = old e

at_erase :
    (fs : Files) (p q : FilePath) (i k : ℕ)
    → (node_at fs q ≡ some (file i) → i < k)
    → node_at (drop_node p fs) q ≡ some (file i)
    → i < k
unfolding node_at drop_node
at_erase fs p q i k old = rw lookup-erase (by_path (p == q))
  where
    by_path :
        (b : Bool)
        → (if b then none else lookup {Key = FilePath} q fs.nodes) ≡ some (file i)
        → i < k
    by_path true e = cc
    by_path false e = old e

module _ {base fs : Files} {May : FilePath → Type 0} (kept : Kept base May fs) where
  pub Fresh-of_absent : (p : FilePath) → node_at fs p ≡ none → Fresh base May p
  Fresh-of_absent p absent n h e = cc (kept.paths p n h e)

  pub Kept-set_node :
      (p : FilePath) (n : Node)
      → Fresh base May p
      → ((j : ℕ) → n ≡ file j → j < fs.next)
      → Kept base May (set_node p n fs)
  unfolding set_node node_at inode_at
  Kept-set_node p n fresh new = record {
    bounded = λ q i. at_insert fs p q n i fs.next new (kept.bounded q i);
    paths = λ q m h e. rw (lookup-insert, not-Fresh base May p q m fresh h e) (kept.paths q m h e);
    contents = kept.contents;
    grown = kept.grown;
  }

  pub Kept-drop_node : (p : FilePath) → Fresh base May p → Kept base May (drop_node p fs)
  unfolding drop_node node_at inode_at
  Kept-drop_node p fresh = record {
    bounded = λ q i. at_erase fs p q i fs.next (kept.bounded q i);
    paths = λ q m h e. rw (lookup-erase, not-Fresh base May p q m fresh h e) (kept.paths q m h e);
    contents = kept.contents;
    grown = kept.grown;
  }

  -- Writing an inode that is new, or only the mode of one.
  pub Kept-set_inode :
      (i : ℕ) (d : Inode)
      → (i < base.next → bytes_of (inode_at fs i) ≡ some d.bytes)
      → Kept base May (set_inode i d fs)
  unfolding set_inode node_at inode_at
  Kept-set_inode i d same = record {
    bounded = kept.bounded;
    paths = kept.paths;
    contents = λ j h. rw lookup-insert (ground (arith, nat_eq_iff i j, kept.contents j h, same));
    grown = kept.grown;
  }

  pub Kept-new_file :
      (p : FilePath) (d : Inode) → Fresh base May p → Kept base May (new_file p d fs)
  unfolding new_file node_at inode_at insert set_node
  Kept-new_file p d fresh = record {
    bounded = λ q i.
        at_insert fs p q (file fs.next) i (suc fs.next) (λ j e. ground arith)
          (λ e. omega (arith, kept.bounded q i e));
    paths = λ q m h e. rw (lookup-insert, not-Fresh base May p q m fresh h e) (kept.paths q m h e);
    contents = λ j h.
        rw lookup-insert (ground (arith, nat_eq_iff fs.next j, kept.contents j h, kept.grown));
    grown = omega (arith, kept.grown);
  }
