-- ===== src/Events/Flags.antt =====
-- What the flag loop of `FileOpen.validate` in internal/events/events.go lets through.
use aegis_ebpf.Base.{
  ℕ, ◌≤◌, ◌≡◌, ◌≢◌, ◌↔◌, refl, Bool, true, false, not, List, [], ◌∷◌, ◌++◌, =b_iff, Bytes, codes,
  ◌⊎◌, arith, All,
}
use aegis_ebpf.Events.Types.{FileOpen}
use aegis_ebpf.Events.Validate.{
  Violation, join, open_checks, fail_if, length_in, open_flags, is_nil, validate_flags,
  validate_open, bad_path, no_flags,
}
use aegis_ebpf.Go.Text.{contains, rune_count}

append-nil_parts : {A : Type 0} (xs ys : List A) → xs ++ ys ≡ [] → (xs ≡ []) × (ys ≡ [])
append-nil_parts [] ys h = (refl, h)
append-nil_parts (x ∷ xs) ys h = absurd (cc)

-- No flag of the list stands in `seen`, and none stands twice.
abbrev pub Fresh : List Bytes → List Bytes → Type 0
Fresh seen [] = Unit
Fresh seen (f ∷ fs) = (contains seen f ≡ false) × Fresh (f ∷ seen) fs

-- The flags of `FileOpenData` in api/openapi.yaml.
abbrev pub IsOpenFlag : Bytes → Type 0
IsOpenFlag f =
    (f ≡ codes "O_RDONLY")
    ⊎ (f ≡ codes "O_WRONLY")
    ⊎ (f ≡ codes "O_RDWR")
    ⊎ (f ≡ codes "O_CREAT")
    ⊎ (f ≡ codes "O_TRUNC")
    ⊎ (f ≡ codes "O_APPEND")

IsOpenFlag-iff : (f : Bytes) → (contains open_flags f ≡ true) ↔ IsOpenFlag f
unfolding contains
IsOpenFlag-iff f = ground (
  arith,
  =b_iff (codes "O_RDONLY") f,
  =b_iff (codes "O_WRONLY") f,
  =b_iff (codes "O_RDWR") f,
  =b_iff (codes "O_CREAT") f,
  =b_iff (codes "O_TRUNC") f,
  =b_iff (codes "O_APPEND") f,
)

abbrev pub Known : List Bytes → Type 0
Known = All IsOpenFlag

flags_sound : (fs seen : List Bytes) → validate_flags seen fs ≡ [] → Known fs × Fresh seen fs
unfolding validate_flags
flags_sound [] seen h = (tt, tt)
flags_sound (f ∷ fs) seen h =
    let parts : (contains open_flags f ≡ true)
        × (contains seen f ≡ false)
        × (validate_flags (f ∷ seen) fs ≡ []) =
      ground (arith, h) in
    let (known, fresh) = flags_sound fs (f ∷ seen) parts.2 in
    (((IsOpenFlag-iff f).0 parts.0, known), (parts.1, fresh))

flags_complete : (fs seen : List Bytes) → Known fs → Fresh seen fs → validate_flags seen fs ≡ []
unfolding validate_flags
flags_complete [] seen k d = refl
flags_complete (f ∷ fs) seen k d =
    rw ((IsOpenFlag-iff f).1 k.0) (rw d.0 (flags_complete fs (f ∷ seen) k.1 d.1))

-- Every item differs from the items behind it.
abbrev pub Distinct : List Bytes → Type 0
Distinct [] = Unit
Distinct (f ∷ fs) = All (λ g. g ≢ f) fs × Distinct fs

abbrev Unseen : List Bytes → List Bytes → Type 0
Unseen seen = All (λ g. contains seen g ≡ false)

Unseen-cons :
    (f : Bytes) (seen fs : List Bytes)
    → Unseen (f ∷ seen) fs ↔ (Unseen seen fs × All (λ g. g ≢ f) fs)
unfolding contains
Unseen-cons f seen [] = (λ _. (tt, tt), λ _. tt)
Unseen-cons f seen (g ∷ fs) = (
  λ h. (
    ground (arith, (Unseen-cons f seen fs).0, =b_iff f g),
    ground (arith, (Unseen-cons f seen fs).0, =b_iff f g),
  ),
  λ h. ground (arith, (Unseen-cons f seen fs).1, =b_iff f g),
)

Fresh-iff : (fs seen : List Bytes) → Fresh seen fs ↔ (Unseen seen fs × Distinct fs)
Fresh-iff [] seen = (λ _. (tt, tt), λ _. tt)
Fresh-iff (f ∷ fs) seen = (
  λ h.
      let (unseen, distinct) = (Fresh-iff fs (f ∷ seen)).0 h.1 in
      let (before, apart) = (Unseen-cons f seen fs).0 unseen in ((h.0, before), (apart, distinct)),
  λ h. (h.0.0, (Fresh-iff fs (f ∷ seen)).1 ((Unseen-cons f seen fs).1 (h.0.1, h.1.0), h.1.1)),
)

Unseen-nil : (fs : List Bytes) → Unseen [] fs
unfolding contains
Unseen-nil [] = tt
Unseen-nil (f ∷ fs) = (refl, Unseen-nil fs)

-- The payload of a file open as api/openapi.yaml wants it.
pub record IsOpen (d : FileOpen) : Type 0 where
  pub lo : 1 ≤ rune_count d.path
  pub hi : rune_count d.path ≤ 4096
  pub some_flag : d.flags ≢ []
  pub known : Known d.flags
  pub distinct : Distinct d.flags

is_nil-ne : (xs : List Bytes) → (is_nil xs ≡ false) ↔ (xs ≢ [])
is_nil-ne [] = (λ h. absurd (cc), λ h. absurd (h refl))
is_nil-ne (x ∷ xs) = (λ h. (cc), λ h. refl)

pub length_in_iff :
    (s : Bytes) (lo hi : ℕ)
    → (length_in s lo hi ≡ true) ↔ ((lo ≤ rune_count s) × (rune_count s ≤ hi))
unfolding length_in
length_in_iff s lo hi = ground arith

-- A check of the form `if !test { fail }` that reported nothing, and one that reports nothing.
pub passed : (b : Bool) (v : Violation) → (fail_if (not b) v ≡ []) ↔ (b ≡ true)
passed true v = (λ _. refl, λ _. refl)
passed false v = (λ h. absurd (cc), λ h. absurd (cc))

pub quiet : (b : Bool) (v : Violation) → (fail_if b v ≡ []) ↔ (b ≡ false)
quiet true v = (λ h. absurd (cc), λ h. absurd (cc))
quiet false v = (λ _. refl, λ _. refl)

-- Nothing is reported exactly when no check reports anything.
pub join_iff : (checks : List (List Violation)) → (join checks ≡ []) ↔ All (λ vs. vs ≡ []) checks
join_iff [] = (λ _. tt, λ _. refl)
join_iff (vs ∷ checks) = (
  λ h. let (a, b) = append-nil_parts vs (join checks) h in (a, (join_iff checks).0 b),
  λ h. cc (h.0, (join_iff checks).1 h.1),
)

-- `FileOpen.validate` reports nothing exactly when the path has 1 to 4096 characters and the flags
-- are one or more distinct flags of `OpenFlags`.
pub validate_open_iff : (d : FileOpen) → (validate_open d ≡ []) ↔ IsOpen d
unfolding validate_open
validate_open_iff d = (sound, complete)
  where
    sound : validate_open d ≡ [] → IsOpen d
    sound h =
        let checks = (join_iff (open_checks d)).0 h in
        let (known, fresh) = flags_sound d.flags [] checks.1.1.0 in
        let len = (length_in_iff d.path 1 4096).0 ((passed _ bad_path).0 checks.0) in
        record {
          lo = len.0;
          hi = len.1;
          some_flag = (is_nil-ne d.flags).0 ((quiet _ no_flags).0 checks.1.0);
          known = known;
          distinct = ((Fresh-iff d.flags []).0 fresh).1;
        }

    complete : IsOpen d → validate_open d ≡ []
    complete s =
        let fresh = (Fresh-iff d.flags []).1 (Unseen-nil d.flags, s.distinct) in
        (join_iff (open_checks d)).1 (
          (passed _ bad_path).1 ((length_in_iff d.path 1 4096).1 (s.lo, s.hi)),
          (
            (quiet _ no_flags).1 ((is_nil-ne d.flags).1 s.some_flag),
            (flags_complete d.flags [] s.known fresh, tt),
          ),
        )
