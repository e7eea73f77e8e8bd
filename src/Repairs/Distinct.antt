-- ===== src/Repairs/Distinct.antt =====
-- The repairs that are made without asking do not get in each other's way, and the others are left to
-- the user for a reason.
use mathlib.Core.Path.{subst}
use kavita_ingest.Prelude.{
  ◌≤◌, String, ◌≡◌, ◌≢◌, refl, ap, ◌∙◌, ◌⊎◌, inl, inr, Bool, true, false, not, ◌&&◌, List, [], ◌∷◌,
  ◌==◌, texts_Eq, texts_eq_iff, string_Eq, eq_iff, ltb, any, length, map, select, All, Any,
  if_cases, arith, Bool-cases,
}
use kavita_ingest.Filesystem.State.{FilePath, Node, Files, parent, exists, is_dir}
use kavita_ingest.Effect.{Result, Exception, done, error}
use kavita_ingest.Repairs.{
  RepairAction, collision_key, name_of, is_child, is_sibling, competing, is_taken, children,
  collides, put, sort_out, remove_colliding_actions,
}

-- Two elements at different places have the property.
pub data Twice {A : Type 0} (P : A → Type 0) : List A → Type 0 where
  now : (x : A) (xs : List A) → P x → Any P xs → Twice P (x ∷ xs)
  later : (x : A) (xs : List A) → Twice P xs → Twice P (x ∷ xs)

-- Each action is in exactly one of the two lists, in its order.
pub data Split : List RepairAction → List RepairAction → List RepairAction → Type 0 where
  empty : Split [] [] []
  kept :
      (a : RepairAction) (actions safe manual : List RepairAction)
      → Split actions safe manual
      → Split (a ∷ actions) (a ∷ safe) manual
  left :
      (a : RepairAction) (actions safe manual : List RepairAction)
      → Split actions safe manual
      → Split (a ∷ actions) safe (a ∷ manual)

module _ (fold : String → String) where
  -- The destinations differ in case only.
  abbrev pub Alike : RepairAction → RepairAction → Type 0
  Alike a b = map fold b.destination ≡ map fold a.destination

  -- An entry beside the destination, whose name differs in case only, and that is not the source.
  pub record IsRival (a : RepairAction) (entry : FilePath × Node) : Type 0 where
    pub folder : FilePath
    pub name : String
    pub wanted : String
    pub there : entry.0 ≡ name ∷ folder
    pub beside : a.destination ≡ wanted ∷ folder
    pub alike : fold name ≡ fold wanted
    pub other : entry.0 ≢ a.source

  module _ (fs : Files) (actions : List RepairAction) where
    -- No other action wants such a destination, it is free but for the source itself, and no entry of
    -- its folder is like it.
    pub record IsClear (a : RepairAction) : Type 0 where
      pub single : Twice (Alike a) actions → ⊥
      pub free : (exists a.destination fs ≡ false) ⊎ (a.destination ≡ a.source)
      pub unrivalled :
          (exists (parent a.destination) fs ≡ false)
          ⊎ ((is_dir (parent a.destination) fs ≡ true)
              × All (λ entry. IsRival a entry → ⊥) fs.nodes)

    -- Why an action is left to the user.
    pub data Blocked (a : RepairAction) : Type 0 where
      shared : Twice (Alike a) actions → Blocked a
      occupied : exists a.destination fs ≡ true → a.destination ≢ a.source → Blocked a
      rivalled : Any (IsRival a) fs.nodes → Blocked a
      at_root : a.destination ≡ [] → Blocked a

    pub record IsConflictFree (safe manual : List RepairAction) : Type 0 where
      pub split : Split actions safe manual
      pub clear : All IsClear safe
      pub blocked : All Blocked manual

module _ {A : Type 0} (P : A → Type 0) (test : A → Bool) where
  Any-selected :
      ((x : A) → test x ≡ true → P x) → (xs : List A) → 1 ≤ length (select test xs) → Any P xs
  unfolding select
  Any-selected h [] e = absurd (omega (arith, e))
  Any-selected h (x ∷ xs) e = by (Bool-cases (test x)) (Any-selected h xs)
    where
      by :
          (test x ≡ true) ⊎ (test x ≡ false)
          → (1 ≤ length (select test xs) → Any P xs)
          → P x ⊎ Any P xs
      by (inl hit) ih = inl (h x hit)
      by (inr miss) ih = inr (ih (ground (arith, e, miss)))

  Twice-selected :
      ((x : A) → test x ≡ true → P x) → (xs : List A) → 2 ≤ length (select test xs) → Twice P xs
  unfolding select
  Twice-selected h [] e = absurd (omega (arith, e))
  Twice-selected h (x ∷ xs) e = by (Bool-cases (test x)) (Twice-selected h xs)
    where
      by :
          (test x ≡ true) ⊎ (test x ≡ false)
          → (2 ≤ length (select test xs) → Twice P xs)
          → Twice P (x ∷ xs)
      by (inl hit) ih = now x xs (h x hit) (Any-selected h xs (ground (arith, e, hit)))
      by (inr miss) ih = later x xs (ih (ground (arith, e, miss)))

  selected-Any :
      ((x : A) → P x → test x ≡ true) → (xs : List A) → Any P xs → 1 ≤ length (select test xs)
  unfolding select
  selected-Any h [] n = elim n [ ]
  selected-Any h (x ∷ xs) (inl here) = ground (arith, h x here)
  selected-Any h (x ∷ xs) (inr there) = ground (arith, selected-Any h xs there)

  selected-Twice :
      ((x : A) → P x → test x ≡ true) → (xs : List A) → Twice P xs → 2 ≤ length (select test xs)
  unfolding select
  selected-Twice h _ (now x xs here there) = ground (arith, h x here, selected-Any h xs there)
  selected-Twice h _ (later x xs there) = ground (arith, selected-Twice h xs there)

  module _ (where_to : A → Bool) where
    none_of :
        ((x : A) → P x → (where_to x ≡ true) × (test x ≡ true))
        → (xs : List A) → any test (select where_to xs) ≡ false
        → All (λ x. P x → ⊥) xs
    unfolding select
    none_of h [] e = tt
    none_of h (x ∷ xs) e =
        if_cases (λ l. any test l ≡ false → (P x → ⊥) × All (λ x. P x → ⊥) xs) (where_to x)
          {x = x ∷ select where_to xs} {y = select where_to xs}
          (λ hit e. (λ p. absurd (ground (arith, (h x p).1, e)), none_of h xs (ground (arith, e))))
          (λ miss e. (λ p. absurd (cc ((h x p).0, miss)), none_of h xs e)) e

    some_of :
        ((x : A) → where_to x ≡ true → test x ≡ true → P x)
        → (xs : List A) → any test (select where_to xs) ≡ true
        → Any P xs
    unfolding select
    some_of h [] e = cc
    some_of h (x ∷ xs) e =
        if_cases (λ l. any test l ≡ true → P x ⊎ Any P xs) (where_to x) {x = x ∷ select where_to xs}
          {y = select where_to xs} (λ hit e. by hit (Bool-cases (test x)) e (some_of h xs))
          (λ miss e. inr (some_of h xs e)) e
      where
        by :
            where_to x ≡ true
            → (test x ≡ true) ⊎ (test x ≡ false)
            → any test (x ∷ select where_to xs) ≡ true
            → (any test (select where_to xs) ≡ true → Any P xs)
            → P x ⊎ Any P xs
        by hit (inl t) e ih = inl (h x hit t)
        by hit (inr t) e ih = inr (ih (ground (arith, e, t)))

done_injective : {A : Type 0} {x y : A} → done x ≡ done y → x ≡ y
done_injective e = cc

error_never : {A : Type 0} {x : Exception} {y : A} → error x ≡ done y → ⊥
error_never e = cc

true_not_false : true ≡ false → ⊥
true_not_false e = cc

both : (a b : Bool) → (a && b) ≡ true → (a ≡ true) × (b ≡ true)
both true b e = (refl, e)
both false b e = cc

module _ (fold : String → String) (fs : Files) (a : RepairAction) where
  IsRival-seen :
      (entry : FilePath × Node)
      → IsRival fold a entry
      → (is_child (parent a.destination) entry ≡ true) × (is_sibling fold a entry ≡ true)
  IsRival-seen entry r = (
    ap (λ p. is_child (parent p) entry) r.beside
        ∙ ap (λ p. is_child r.folder (p, entry.1)) r.there
        ∙ (texts_eq_iff r.folder r.folder).1 refl,
    ap (λ p. fold (name_of entry.0) == fold (name_of p) && not (entry.0 == a.source)) r.beside
        ∙ ap (λ p. fold (name_of p) == fold r.wanted && not (entry.0 == a.source)) r.there
        ∙ joined (fold r.name == fold r.wanted) (entry.0 == a.source)
            ((eq_iff (fold r.name) (fold r.wanted)).1 r.alike)
            (λ e. r.other ((texts_eq_iff entry.0 a.source).0 e)),
  )
    where
      joined : (b c : Bool) → b ≡ true → (c ≡ true → ⊥) → (b && not c) ≡ true
      joined true true e h = absurd (h refl)
      joined true false e h = refl
      joined false c e h = cc

  seen-IsRival :
      (wanted : String) (folder : FilePath)
      → a.destination ≡ wanted ∷ folder
      → (entry : FilePath × Node) → is_child (parent a.destination) entry ≡ true
      → is_sibling fold a entry ≡ true
      → IsRival fold a entry
  seen-IsRival wanted folder beside ([], node) child sibling = cc
  seen-IsRival wanted folder beside (name ∷ p, node) child sibling =
      let (alike, other) = both _ _ sibling in
      record {
        folder = folder;
        name = name;
        wanted = wanted;
        there =
            ap (λ q. name ∷ q) ((texts_eq_iff p (parent a.destination)).0 child ∙ ap parent beside);
        beside = beside;
        alike =
            (eq_iff (fold name) (fold (name_of a.destination))).0 alike
            ∙ ap (λ q. fold (name_of q)) beside;
        other = λ e.
            absurd (unlike ((name ∷ p) == a.source) other ((texts_eq_iff (name ∷ p) a.source).1 e));
      }
    where
      unlike : (b : Bool) → not b ≡ true → b ≡ true → ⊥
      unlike true e h = cc
      unlike false e h = cc

module _ (fold : String → String) (fs : Files) (actions : List RepairAction) where
  -- What the tests say of an action that does not collide, and of one that does.
  abbrev Verdict : RepairAction → Result Bool → Type 0
  Verdict a (done false) = IsClear fold fs actions a
  Verdict a (done true) = Blocked fold fs actions a
  Verdict a (error e) = Unit

  collides-Verdict : (a : RepairAction) → Verdict a (collides fold fs actions a)
  unfolding collides competing
  collides-Verdict a =
      if_cases (Verdict a) (ltb 1 (length (select same actions)))
        (λ many. shared (
          Twice-selected (Alike fold a) same
            (λ b. (texts_eq_iff (collision_key fold b) (collision_key fold a)).0) actions
            (ground (arith, many))))
        λ few.
          if_cases (Verdict a) (is_taken fs a) (λ taken. taken_so taken)
            λ free.
              if_cases (Verdict a) (exists (parent a.destination) fs)
                (λ there.
                  if_cases (Verdict a) (is_dir (parent a.destination) fs)
                    (λ folder. beside few free folder _ refl) (λ file. tt))
                λ missing. clear few free (inl missing)
    where
      same : RepairAction → Bool
      same b = collision_key fold b == collision_key fold a

      taken_so : is_taken fs a ≡ true → Blocked fold fs actions a
      taken_so e =
          let (there, other) = both _ _ e in
          occupied there (λ h.
            apart (a.destination == a.source) other ((texts_eq_iff a.destination a.source).1 h))
        where
          apart : (b : Bool) → not b ≡ true → b ≡ true → ⊥
          apart true e h = cc
          apart false e h = cc

      free_so :
          is_taken fs a ≡ false → (exists a.destination fs ≡ false) ⊎ (a.destination ≡ a.source)
      free_so e = by (exists a.destination fs) (a.destination == a.source) refl refl e
        where
          by :
              (b c : Bool)
              → exists a.destination fs ≡ b
              → (a.destination == a.source) ≡ c
              → (b && not c) ≡ false
              → (exists a.destination fs ≡ false) ⊎ (a.destination ≡ a.source)
          by false c at own e = inl at
          by true true at own e = inr ((texts_eq_iff a.destination a.source).0 own)
          by true false at own e = cc

      clear :
          ltb 1 (length (select same actions)) ≡ false
          → is_taken fs a ≡ false
          → (exists (parent a.destination) fs ≡ false)
            ⊎ ((is_dir (parent a.destination) fs ≡ true)
                × All (λ entry. IsRival fold a entry → ⊥) fs.nodes)
          → IsClear fold fs actions a
      clear few free alone = record {
        single = λ twice.
            let many =
              selected-Twice (Alike fold a) same
                (λ b. (texts_eq_iff (collision_key fold b) (collision_key fold a)).1) actions
                twice in
            absurd (ground (arith, few, many));
        free = free_so free;
        unrivalled = alone;
      }

      beside :
          ltb 1 (length (select same actions)) ≡ false
          → is_taken fs a ≡ false
          → is_dir (parent a.destination) fs ≡ true
          → (b : Bool) → any (is_sibling fold a) (children (parent a.destination) fs) ≡ b
          → Verdict a (done b)
      beside few free folder false none_there = clear few free (
          inr (
            folder,
            none_of (IsRival fold a) (is_sibling fold a) (is_child (parent a.destination))
                (IsRival-seen fold fs a) fs.nodes none_there,
          ))
      beside few free folder true some_there = by a.destination refl
        where
          by : (p : FilePath) → a.destination ≡ p → Blocked fold fs actions a
          by [] at = at_root at
          by (wanted ∷ q) at = rivalled (
              some_of (IsRival fold a) (is_sibling fold a) (is_child (parent a.destination))
                (seen-IsRival fold fs a wanted q at) fs.nodes some_there)

  sort_out-IsConflictFree :
      (rest safe manual : List RepairAction)
      → sort_out fold fs actions rest ≡ done (safe, manual)
      → Split rest safe manual
        × All (IsClear fold fs actions) safe
        × All (Blocked fold fs actions) manual
  unfolding sort_out
  sort_out-IsConflictFree [] safe manual e =
      subst
        (λ r.
          Split [] r.0 r.1 × All (IsClear fold fs actions) r.0 × All (Blocked fold fs actions) r.1)
        (done_injective e) (empty, tt, tt)
  sort_out-IsConflictFree (a ∷ rest) safe manual e =
      by (collides fold fs actions a) (sort_out fold fs actions rest) (collides-Verdict a)
        (λ s m. sort_out-IsConflictFree rest s m) e
    where
      Good : List RepairAction → List RepairAction × List RepairAction → Type 0
      Good l r =
          Split l r.0 r.1 × All (IsClear fold fs actions) r.0 × All (Blocked fold fs actions) r.1

      by :
          (v : Result Bool) (r : Result (List RepairAction × List RepairAction))
          → Verdict a v
          → ((s m : List RepairAction) → r ≡ done (s, m) → Good rest (s, m))
          → put a v r ≡ done (safe, manual)
          → Good (a ∷ rest) (safe, manual)
      by (error x) r v ih e = absurd (error_never e)
      by (done true) (error x) v ih e = absurd (error_never e)
      by (done false) (error x) v ih e = absurd (error_never e)
      by (done true) (done (s, m)) v ih e =
          let (split, clear, blocked) = ih s m refl in
          subst (Good (a ∷ rest)) (done_injective e) (left a rest s m split, clear, (v, blocked))
      by (done false) (done (s, m)) v ih e =
          let (split, clear, blocked) = ih s m refl in
          subst (Good (a ∷ rest)) (done_injective e) (kept a rest s m split, (v, clear), blocked)

-- Where the sorting returns, each action is in exactly one of the two lists, in its order. A repair
-- that is made automatically is the only one of all that wants its destination, up to case; the
-- destination is not there, unless it is the source itself; and its folder is not there, or is a
-- directory in which no entry but the source has a name that is the destination's up to case. A repair
-- that is left to the user has a reason: another wants the same destination up to case, something
-- else is there, an entry of the folder is alike, or the destination is the root.
pub remove_colliding_actions-IsConflictFree :
    (fold : String → String) (fs : Files) (actions safe manual : List RepairAction)
    → remove_colliding_actions fold fs actions ≡ done (safe, manual)
    → IsConflictFree fold fs actions safe manual
unfolding remove_colliding_actions
remove_colliding_actions-IsConflictFree fold fs actions safe manual e =
    let (split, clear, blocked) = sort_out-IsConflictFree fold fs actions actions safe manual e in
    record { split = split; clear = clear; blocked = blocked }
