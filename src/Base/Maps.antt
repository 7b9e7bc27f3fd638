-- ===== src/Base/Maps.antt =====
-- Go maps as association lists. The order of the list is the order in which a `range` visits the
-- map; Go leaves it open, and no theorem depends on it.
use Prim.Native.Nat.{◌+◌, ◌≤◌, ◌<◌}
use mathlib.Core.Bool.{Bool, true, false, ◌&&◌}
use mathlib.Core.List.{List, [], ◌∷◌}
use mathlib.Core.Logic.{◌↔◌}
use mathlib.Core.Option.{Option, none, some}
use mathlib.Core.Path.{◌≡◌, refl}
use native.Mathlib.Omega.{arith}
use aegis_ebpf.Base.Lists.{length}
use aegis_ebpf.Base.Tests.{◌=b◌, =b_iff, if◌then◌else◌, Bytes}

-- The equality of keys.
pub record Key {ℓ} (K : Type ℓ) : Type ℓ where
  pub same : K → K → Bool
  pub same_iff : (a b : K) → (same a b ≡ true) ↔ (a ≡ b)

instance abbrev pub bytes_key : Key Bytes
bytes_key = record { same = ◌=b◌; same_iff = =b_iff }

unfoldable pub pair_same : Bytes × Bytes → Bytes × Bytes → Bool
pair_same (a, b) (c, d) = a =b c && b =b d

pub pair_same_iff : (p q : Bytes × Bytes) → (pair_same p q ≡ true) ↔ (p ≡ q)
unfolding pair_same
pair_same_iff (a, b) (c, d) = ground (arith, =b_iff a c, =b_iff b d)

instance abbrev pub pair_key : Key (Bytes × Bytes)
pair_key = record { same = pair_same; same_iff = pair_same_iff }

module _ {ℓ κ} {K : Type ℓ} {V : Type κ} ⦃k : Key K⦄ where
  open k use {same, same_iff}

  unfoldable pub find : K → List (K × V) → Option V
  find a [] = none
  find a ((b, v) ∷ m) = if same b a then some v else find a m

  unfoldable pub insert : K → V → List (K × V) → List (K × V)
  insert a v [] = (a, v) ∷ []
  insert a v ((b, w) ∷ m) = if same b a then (a, v) ∷ m else (b, w) ∷ insert a v m

  -- `delete(m, a)`.
  unfoldable pub erase : K → List (K × V) → List (K × V)
  erase a [] = []
  erase a ((b, w) ∷ m) = let rest = erase a m in if same b a then rest else (b, w) ∷ rest

  pub find-insert :
      (a c : K) (v : V) (m : List (K × V))
      → find c (insert a v m) ≡ (if same a c then some v else find c m)
  unfolding find insert
  find-insert a c v [] = refl
  find-insert a c v ((b, w) ∷ m) =
      ground (arith, same_iff a c, same_iff b a, same_iff b c, find-insert a c v m)

  pub find-erase :
      (a c : K) (m : List (K × V)) → find c (erase a m) ≡ (if same a c then none else find c m)
  unfolding find erase
  find-erase a c [] = ground arith
  find-erase a c ((b, w) ∷ m) =
      ground (arith, same_iff a c, same_iff b a, same_iff b c, find-erase a c m)

  pub insert_here :
      (a c : K) (v u : V) (m : List (K × V))
      → same a c ≡ true
      → find c (insert a v m) ≡ some u
      → u ≡ v
  insert_here a c v u m e h = ground (arith, find-insert a c v m, e, h)

  pub insert_elsewhere :
      (a c : K) (v : V) (m : List (K × V)) → same a c ≡ false → find c (insert a v m) ≡ find c m
  insert_elsewhere a c v m e = ground (arith, find-insert a c v m, e)

  pub insert_self : (a : K) (v : V) (m : List (K × V)) → find a (insert a v m) ≡ some v
  insert_self a v m = ground (arith, find-insert a a v m, same_iff a a)

  pub length-insert-le : (a : K) (v : V) (m : List (K × V)) → length (insert a v m) ≤ length m + 1
  unfolding insert
  length-insert-le a v [] = omega arith
  length-insert-le a v ((b, w) ∷ m) = ground (arith, length-insert-le a v m)

  -- A write at a key that is there keeps the size.
  pub length-insert_found :
      (a : K) (v : V) (m : List (K × V)) (u : V)
      → find a m ≡ some u
      → length (insert a v m) ≡ length m
  unfolding find insert
  length-insert_found a v [] u h = absurd (cc)
  length-insert_found a v ((b, w) ∷ m) u h = ground (arith, length-insert_found a v m u)

  pub length-erase-le : (a : K) (m : List (K × V)) → length (erase a m) ≤ length m
  unfolding erase
  length-erase-le a [] = omega arith
  length-erase-le a ((b, w) ∷ m) = ground (arith, length-erase-le a m)

  pub length-erase_found :
      (a : K) (m : List (K × V)) (u : V) → find a m ≡ some u → length (erase a m) < length m
  unfolding find erase
  length-erase_found a [] u h = absurd (cc)
  length-erase_found a ((b, w) ∷ m) u h =
      ground (arith, length-erase-le a m, length-erase_found a m u)
