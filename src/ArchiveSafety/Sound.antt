-- ===== src/ArchiveSafety/Sound.antt =====
-- What the tests of `validate_inventory` ask of an inventory, without the order of its loop.
use kavita_ingest.Prelude.{
  ℕ, ◌+◌, ◌*◌, ◌≤◌, ◌<◌, ◌≡◌, refl, ◌↔◌, Bool, true, false, Option, none, some, List, [], ◌∷◌, ◌==◌,
  codes_Eq, nat_Eq, ltb, length, any, map, All, arith, if◌then◌else◌,
}
use kavita_ingest.ArchiveSafety.{
  Text, ArchiveMember, ArchiveLimits, Unsafe, forward_slashes, parts, has_bad_start, is_unsafe_path,
  is_among, dot_dot, exceeds_ratio, folded, check_members, validate_inventory,
}

-- What is asked of one member.
pub record IsTestedMember (limits : ArchiveLimits) (links encrypted : List Text)
    (member : ArchiveMember) : Type 0 where
  pub relative : has_bad_start (forward_slashes member.filename) ≡ false
  pub inside : All (λ p. (p == dot_dot) ≡ false) (parts (forward_slashes member.filename))
  pub shallow : length (parts (forward_slashes member.filename)) ≤ limits.max_path_depth
  pub no_link : is_among (forward_slashes member.filename) links ≡ false
  pub readable : is_among (forward_slashes member.filename) encrypted ≡ false
  pub small : member.is_dir ≡ false → member.file_size ≤ limits.max_entry_bytes
  pub plausible :
      member.is_dir ≡ false
      → 0 < member.compress_size
      → member.file_size * limits.ratio_unit ≤ limits.ratio * member.compress_size

-- No two have one name.
abbrev pub Distinct : List Text → Type 0
Distinct [] = Unit
Distinct (x ∷ xs) = All (λ y. (x == y) ≡ false) xs × Distinct xs

unfoldable pub total_size : List ArchiveMember → ℕ
total_size [] = 0
total_size (member ∷ rest) =
    let others = total_size rest in if member.is_dir then others else member.file_size + others

guard_iff :
    (b : Bool) (e : Unsafe) (o : Option Unsafe)
    → ((if b then some e else o) ≡ none) ↔ ((b ≡ false) × (o ≡ none))
guard_iff true e o = (λ h. cc, λ h. cc)
guard_iff false e o = (λ h. (refl, h), λ h. h.1)

guard_pass :
    {b : Bool} (e : Unsafe) {o : Option Unsafe}
    → b ≡ false
    → o ≡ none
    → (if b then some e else o) ≡ none
guard_pass {b} e {o} off h = (guard_iff b e o).1 (off, h)

any-false :
    {A : Type 0} (p : A → Bool) (xs : List A) → (any p xs ≡ false) ↔ All (λ x. p x ≡ false) xs
any-false p [] = (λ h. tt, λ h. refl)
any-false p (x ∷ xs) =
    let rest = any-false p xs in
    (λ h. (ground (arith, h), rest.0 (ground (arith, h))), λ h. ground (arith, h.0, rest.1 h.1))

module _ (casefold : Text → Text) (limits : ArchiveLimits) (links encrypted : List Text) where
  abbrev fold : ArchiveMember → Text
  fold member = folded casefold limits links encrypted member

  abbrev names_of : List ArchiveMember → List Text
  names_of members = map fold members

  -- What is left to be asked of the members, behind those seen.
  record Fits (seen : List Text) (total : ℕ) (members : List ArchiveMember) : Type 0 where
    each : All (IsTestedMember limits links encrypted) members
    apart : Distinct (names_of members)
    unseen : All (λ name. is_among name seen ≡ false) (names_of members)
    whole : total + total_size members ≤ limits.max_total_bytes

  later_apart :
      (x : Text) (seen names : List Text)
      → All (λ name. is_among name (x ∷ seen) ≡ false) names
        ↔ (All (λ name. (x == name) ≡ false) names × All (λ name. is_among name seen ≡ false) names)
  later_apart x seen [] = (λ h. (tt, tt), λ h. tt)
  later_apart x seen (name ∷ names) =
      let rest = later_apart x seen names in
      (
        λ h.
            let both = rest.0 h.1 in ((ground (arith, h.0), both.0), (ground (arith, h.0), both.1)),
        λ h. (ground (arith, h.0.0, h.1.0), rest.1 (h.0.1, h.1.1)),
      )

  inside_iff :
      (name : Text)
      → (is_unsafe_path name ≡ false)
        ↔ ((has_bad_start name ≡ false) × All (λ p. (p == dot_dot) ≡ false) (parts name))
  inside_iff name =
      let all_parts = any-false (λ p. p == dot_dot) (parts name) in
      (
        λ h. (ground (arith, h), all_parts.0 (ground (arith, h))),
        λ h. ground (arith, h.0, all_parts.1 h.1),
      )

  -- The bytes counted behind a member.
  abbrev counted : Bool → ArchiveMember → ℕ → ℕ
  counted dir member total = if dir then total else total + member.file_size

  -- The tests of a member's sizes, which a directory skips, and the rest of the loop `k`.
  abbrev size_tests : Bool → ArchiveMember → ℕ → (ℕ → Option Unsafe) → Option Unsafe
  size_tests dir member total k =
      if dir
      then k total
      else if ltb limits.max_entry_bytes member.file_size
      then some Unsafe.too_large
      else if ltb limits.max_total_bytes (total + member.file_size)
      then some Unsafe.total_too_large
      else if exceeds_ratio limits member
      then some Unsafe.ratio_too_high
      else k (total + member.file_size)

  record Sized (dir : Bool) (member : ArchiveMember) (total : ℕ) : Type 0 where
    small : dir ≡ false → member.file_size ≤ limits.max_entry_bytes
    plausible :
        dir ≡ false
        → 0 < member.compress_size
        → member.file_size * limits.ratio_unit ≤ limits.ratio * member.compress_size
    within : counted dir member total ≤ limits.max_total_bytes

  size_tests_iff :
      (dir : Bool) (member : ArchiveMember) (total : ℕ) (k : ℕ → Option Unsafe)
      → total ≤ limits.max_total_bytes
      → (size_tests dir member total k ≡ none)
        ↔ (Sized dir member total × (k (counted dir member total) ≡ none))
  size_tests_iff true member total k le =
      (λ h. (record { small = λ e. cc; plausible = λ e. cc; within = le }, h), λ h. h.1)
  size_tests_iff false member total k le = (
    λ h.
        let large = (guard_iff (ltb limits.max_entry_bytes member.file_size) _ _).0 h in
        let whole =
          (guard_iff (ltb limits.max_total_bytes (total + member.file_size)) _ _).0 large.1 in
        let ratio = (guard_iff (exceeds_ratio limits member) _ _).0 whole.1 in
        (
          record {
            small = λ e. ground (arith, large.0);
            plausible = λ e packed. ground (arith, ratio.0, packed);
            within = ground (arith, whole.0);
          },
          ratio.1,
        ),
    λ h.
        let small = h.0.small refl in
        let within = h.0.within in
        guard_pass {b = ltb limits.max_entry_bytes member.file_size} _ (ground (arith, small)) (
          guard_pass {b = ltb limits.max_total_bytes (total + member.file_size)} _
            (ground (arith, within))
            (guard_pass {b = exceeds_ratio limits member} _ (fits_ratio member (h.0.plausible refl))
              h.1)),
  )
    where
      fits_ratio :
          (member : ArchiveMember)
          → (0 < member.compress_size
              → member.file_size * limits.ratio_unit ≤ limits.ratio * member.compress_size)
          → exceeds_ratio limits member ≡ false
      fits_ratio member h = ground (arith, h)

  -- What one turn of the loop asks.
  record Turn (seen : List Text) (total : ℕ) (member : ArchiveMember) : Type 0 where
    safe : IsTestedMember limits links encrypted member
    fresh : is_among (fold member) seen ≡ false
    within : counted member.is_dir member total ≤ limits.max_total_bytes

  Turn-iff :
      (seen : List Text) (total : ℕ) (member : ArchiveMember) (rest : List ArchiveMember)
      → total ≤ limits.max_total_bytes
      → (check_members casefold limits links encrypted seen total (member ∷ rest) ≡ none) ↔ (
          Turn seen total member
          × (check_members casefold limits links encrypted
                (fold member ∷ seen)
                (counted member.is_dir member total)
                rest
              ≡ none))
  unfolding check_members
  Turn-iff seen total member rest le = (
    λ h.
        let path = (guard_iff (is_unsafe_path (forward_slashes member.filename)) _ _).0 h in
        let deep =
          (guard_iff (ltb limits.max_path_depth (length (parts (forward_slashes member.filename))))
              _ _).0
            path.1 in
        let same = (guard_iff (is_among (fold member) seen) _ _).0 deep.1 in
        let linked = (guard_iff (is_among (forward_slashes member.filename) links) _ _).0 same.1 in
        let locked =
          (guard_iff (is_among (forward_slashes member.filename) encrypted) _ _).0 linked.1 in
        let inside = (inside_iff _).0 path.0 in
        let sized = (size_tests_iff member.is_dir member total next le).0 locked.1 in
        (
          record {
            safe = record {
              relative = inside.0;
              inside = inside.1;
              shallow = ground (arith, deep.0);
              no_link = linked.0;
              readable = locked.0;
              small = sized.0.small;
              plausible = sized.0.plausible;
            };
            fresh = same.0;
            within = sized.0.within;
          },
          sized.1,
        ),
    λ h.
        let safe = h.0.safe in
        let shallow = safe.shallow in
        guard_pass _ ((inside_iff _).1 (safe.relative, safe.inside)) (
          guard_pass _ (ground (arith, shallow)) (
            guard_pass _ h.0.fresh (
              guard_pass _ safe.no_link (
                guard_pass _ safe.readable (
                  (size_tests_iff member.is_dir member total next le).1 (
                    record { small = safe.small; plausible = safe.plausible; within = h.0.within },
                    h.1,
                  )))))),
  )
    where
      next : ℕ → Option Unsafe
      next t = check_members casefold limits links encrypted (fold member ∷ seen) t rest

  total_counted :
      (dir : Bool) (member : ArchiveMember) (total others : ℕ)
      → counted dir member total + others
        ≡ total + (if dir then others else member.file_size + others)
  total_counted true member total others = refl
  total_counted false member total others = omega arith

  sound :
      (seen : List Text) (total : ℕ) (members : List ArchiveMember)
      → total ≤ limits.max_total_bytes
      → check_members casefold limits links encrypted seen total members ≡ none
      → Fits seen total members
  unfolding total_size
  sound seen total [] le h = record { each = tt; apart = tt; unseen = tt; whole = omega arith }
  sound seen total (member ∷ rest) le h =
      let turn = (Turn-iff seen total member rest le).0 h in
      let others =
        sound (fold member ∷ seen) (counted member.is_dir member total) rest turn.0.within turn.1 in
      let names = (later_apart (fold member) seen (names_of rest)).0 others.unseen in
      record {
        each = (turn.0.safe, others.each);
        apart = (names.0, others.apart);
        unseen = (turn.0.fresh, names.1);
        whole =
            ground
              (arith, others.whole, total_counted member.is_dir member total (total_size rest));
      }

  complete :
      (seen : List Text) (total : ℕ) (members : List ArchiveMember)
      → Fits seen total members
      → check_members casefold limits links encrypted seen total members ≡ none
  unfolding total_size check_members
  complete seen total [] h = refl
  complete seen total (member ∷ rest) h =
      let whole = h.whole in
      let sum = total_counted member.is_dir member total (total_size rest) in
      (Turn-iff seen total member rest (omega (arith, whole))).1 (
        record { safe = h.each.0; fresh = h.unseen.0; within = ground (arith, whole, sum) },
        complete (fold member ∷ seen) (counted member.is_dir member total) rest (record {
          each = h.each.1;
          apart = h.apart.1;
          unseen = (later_apart (fold member) seen (names_of rest)).1 (h.apart.0, h.unseen.1);
          whole = ground (arith, whole, sum);
        }),
      )

  -- An inventory is accepted exactly if each member passes the tests, no two folded names are the same,
  -- and the number and the sizes of all are no more than allowed.
  pub validate_inventory-tests :
      (members : List ArchiveMember)
      → (validate_inventory casefold limits links encrypted members ≡ none) ↔ (
          (length members ≤ limits.max_entries)
          × All (IsTestedMember limits links encrypted) members
          × Distinct (map (folded casefold limits links encrypted) members)
          × (total_size members ≤ limits.max_total_bytes))
  unfolding validate_inventory
  validate_inventory-tests members = (
    λ h.
        let few = (guard_iff (ltb limits.max_entries (length members)) _ _).0 h in
        let fits = sound [] 0 members (omega arith) few.1 in
        let whole = fits.whole in
        (ground (arith, few.0), fits.each, fits.apart, omega (arith, whole)),
    λ h. guard_pass _ (ground (arith, h.0)) (
        complete [] 0 members (record {
          each = h.1;
          apart = h.2;
          unseen = nothing_seen (names_of members);
          whole = omega (arith, h.3);
        })),
  )
    where
      nothing_seen : (names : List Text) → All (λ name. is_among name [] ≡ false) names
      nothing_seen [] = tt
      nothing_seen (name ∷ names) = (refl, nothing_seen names)
