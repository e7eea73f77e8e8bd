-- ===== src/ArchiveSafety/Described.antt =====
-- `validate_inventory` of src/kavita_ingest/archive_safety.py accepts exactly the inventories that are
-- safe, which is said without the tests of the code.
use mathlib.Core.Path.{subst}
use kavita_ingest.Prelude.{
  ◌*◌, ◌≤◌, ◌<◌, ◌≡◌, refl, sym, ap, ◌∙◌, ◌↔◌, ◌⊎◌, inl, inr, Bool, true, false, codes_eq_iff, none,
  List, [], ◌∷◌, ◌==◌, nat_Eq, nat_eq_iff, codes_Eq, length, All, Any, arith, Bool-cases,
}
use kavita_ingest.ArchiveSafety.{
  Text, ArchiveMember, ArchiveLimits, forward_slashes, is_among, validate_inventory,
}
use kavita_ingest.ArchiveSafety.Sound.{IsTestedMember, total_size, validate_inventory-tests}
use kavita_ingest.ArchiveSafety.Names.{
  slashed, IsRelative, has_bad_start-IsRelative, forward_slashes-slashed,
}
use kavita_ingest.ArchiveSafety.Pieces.{IsInside, IsInside-of, IsInside-parts}
use kavita_ingest.ArchiveSafety.Ends.{AllApart, AllApart-iff}

-- What is asked of one member. Its name, with slashes for backslashes, is looked for among the names
-- of the links and of the encrypted members as they are given.
pub record IsSafeMember (limits : ArchiveLimits) (links encrypted : List Text)
    (member : ArchiveMember) : Type 0 where
  pub relative : IsRelative (slashed member.filename)
  pub inside : IsInside limits.max_path_depth (slashed member.filename)
  pub no_link : Any (λ name. name ≡ slashed member.filename) links → ⊥
  pub readable : Any (λ name. name ≡ slashed member.filename) encrypted → ⊥
  pub sizes :
      (member.is_dir ≡ true)
      ⊎ ((member.file_size ≤ limits.max_entry_bytes)
          × ((member.compress_size ≡ 0)
              ⊎ (member.file_size * limits.ratio_unit ≤ limits.ratio * member.compress_size)))

is_among_iff :
    (name : Text) (names : List Text)
    → (is_among name names ≡ false) ↔ (Any (λ n. n ≡ name) names → ⊥)
is_among_iff name [] = (λ h n. elim n [ ], λ h. refl)
is_among_iff name (n ∷ names) =
    let later = is_among_iff name names in
    (λ h a. to (Bool-cases (n == name)) h later.0 a, λ h. from (Bool-cases (n == name)) h later.1)
  where
    to :
        ((n == name) ≡ true) ⊎ ((n == name) ≡ false)
        → is_among name (n ∷ names) ≡ false
        → (is_among name names ≡ false → Any (λ m. m ≡ name) names → ⊥)
        → (n ≡ name) ⊎ Any (λ m. m ≡ name) names
        → ⊥
    to (inl hit) h later a = ground (arith, hit, h)
    to (inr miss) h later (inl same) = cc ((codes_eq_iff n name).1 same, miss)
    to (inr miss) h later (inr a) = later (ground (arith, miss, h)) a

    from :
        ((n == name) ≡ true) ⊎ ((n == name) ≡ false)
        → ((n ≡ name) ⊎ Any (λ m. m ≡ name) names → ⊥)
        → ((Any (λ m. m ≡ name) names → ⊥) → is_among name names ≡ false)
        → is_among name (n ∷ names) ≡ false
    from (inl hit) h later = absurd (h (inl ((codes_eq_iff n name).0 hit)))
    from (inr miss) h later = ground (arith, miss, later (λ a. h (inr a)))

module _ (limits : ArchiveLimits) (links encrypted : List Text) where
  abbrev Sizes : ArchiveMember → Bool → Type 0
  Sizes member dir =
      (dir ≡ true)
      ⊎ ((member.file_size ≤ limits.max_entry_bytes)
          × ((member.compress_size ≡ 0)
              ⊎ (member.file_size * limits.ratio_unit ≤ limits.ratio * member.compress_size)))

  Sizes-of :
      (member : ArchiveMember) (dir : Bool)
      → (dir ≡ false → member.file_size ≤ limits.max_entry_bytes)
      → (dir ≡ false
          → 0 < member.compress_size
          → member.file_size * limits.ratio_unit ≤ limits.ratio * member.compress_size)
      → Sizes member dir
  Sizes-of member true small plausible = inl refl
  Sizes-of member false small plausible =
      inr (small refl, by (Bool-cases (member.compress_size == 0)))
    where
      by :
          ((member.compress_size == 0) ≡ true) ⊎ ((member.compress_size == 0) ≡ false)
          → (member.compress_size ≡ 0)
            ⊎ (member.file_size * limits.ratio_unit ≤ limits.ratio * member.compress_size)
      by (inl e) = inl ((nat_eq_iff member.compress_size 0).0 e)
      by (inr e) = inr (plausible refl (ground (arith, e)))

  small_of :
      (member : ArchiveMember) (dir : Bool)
      → Sizes member dir
      → dir ≡ false
      → member.file_size ≤ limits.max_entry_bytes
  small_of member dir (inl e) f = absurd (cc (e, f))
  small_of member dir (inr (small, h)) f = small

  plausible_of :
      (member : ArchiveMember) (dir : Bool)
      → Sizes member dir
      → dir ≡ false
      → 0 < member.compress_size
      → member.file_size * limits.ratio_unit ≤ limits.ratio * member.compress_size
  plausible_of member dir (inl e) f packed = absurd (cc (e, f))
  plausible_of member dir (inr (small, inl e)) f packed = absurd (omega (arith, e, packed))
  plausible_of member dir (inr (small, inr h)) f packed = h

  IsSafeMember-iff :
      (member : ArchiveMember)
      → IsTestedMember limits links encrypted member ↔ IsSafeMember limits links encrypted member
  IsSafeMember-iff member = (
    λ h. record {
      relative = subst IsRelative at ((has_bad_start-IsRelative name).0 h.relative);
      inside = subst (IsInside limits.max_path_depth) at (IsInside-of _ name h.inside h.shallow);
      no_link = (is_among_iff _ links).0 (ap (λ n. is_among n links) (sym at) ∙ h.no_link);
      readable =
          (is_among_iff _ encrypted).0 (ap (λ n. is_among n encrypted) (sym at) ∙ h.readable);
      sizes = Sizes-of member member.is_dir h.small h.plausible;
    },
    λ h.
        let relative = subst IsRelative (sym at) h.relative in
        let (inside, shallow) =
          IsInside-parts limits.max_path_depth name relative.nonempty
            (subst (IsInside limits.max_path_depth) (sym at) h.inside) in
        record {
          relative = (has_bad_start-IsRelative name).1 relative;
          inside = inside;
          shallow = shallow;
          no_link = ap (λ n. is_among n links) at ∙ (is_among_iff _ links).1 h.no_link;
          readable = ap (λ n. is_among n encrypted) at ∙ (is_among_iff _ encrypted).1 h.readable;
          small = small_of member member.is_dir h.sizes;
          plausible = plausible_of member member.is_dir h.sizes;
        },
  )
    where
      name : Text
      name = forward_slashes member.filename

      at : forward_slashes member.filename ≡ slashed member.filename
      at = forward_slashes-slashed member.filename

  All-IsSafeMember :
      (members : List ArchiveMember)
      → All (IsTestedMember limits links encrypted) members
        ↔ All (IsSafeMember limits links encrypted) members
  All-IsSafeMember [] = (λ h. tt, λ h. tt)
  All-IsSafeMember (member ∷ rest) =
      let here = IsSafeMember-iff member in
      let later = All-IsSafeMember rest in
      (λ h. (here.0 h.0, later.0 h.1), λ h. (here.1 h.0, later.1 h.1))

-- An inventory is accepted exactly if it has no more entries than allowed; each of them is safe; no two
-- names, with slashes for backslashes, are the same up to case folding and slashes at the end; and the
-- sizes of the files sum up to no more than allowed. An entry is safe if its name, with slashes for
-- backslashes, is neither empty nor absolute, has no drive, and is made of pieces between slashes of
-- which none is ".." and no more than allowed are neither empty nor a dot; if the name in this form is
-- not among the given names of links and of encrypted members; and if it is a directory, or its size
-- and the ratio to its packed size are no more than allowed.
pub validate_inventory_iff :
    (casefold : Text → Text) (limits : ArchiveLimits) (links encrypted : List Text)
    (members : List ArchiveMember)
    → (validate_inventory casefold limits links encrypted members ≡ none) ↔ (
        (length members ≤ limits.max_entries)
        × All (IsSafeMember limits links encrypted) members
        × AllApart casefold members
        × (total_size members ≤ limits.max_total_bytes))
validate_inventory_iff casefold limits links encrypted members =
    let tests = validate_inventory-tests casefold limits links encrypted members in
    let safe = All-IsSafeMember limits links encrypted members in
    let apart = AllApart-iff casefold limits links encrypted members in
    (
      λ h.
          let (few, each, distinct, whole) = tests.0 h in
          (few, safe.0 each, apart.0 distinct, whole),
      λ h. tests.1 (h.0, safe.1 h.1, apart.1 h.2, h.3),
    )
