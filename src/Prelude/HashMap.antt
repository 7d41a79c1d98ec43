-- ===== src/Prelude/HashMap.antt =====
-- A map from addresses as an association list with one pair to a key: the standard library's
-- `HashMap` where the code uses it, and the allocator's table of live blocks.
use Prim.Native.Nat.{ℕ, ◌+◌}
use mathlib.Core.Path.{◌≡◌, refl}
use mathlib.Core.Bool.{Bool, true, false}
use mathlib.Core.List.{List, [], ◌∷◌}
use mathlib.Core.Option.{Option, none, some}
use native.Mathlib.Omega.{arith}
use imageglass_ithmb_plugin.Prelude.Tests.{◌==◌, if◌then◌else◌}
use imageglass_ithmb_plugin.Prelude.Lists.{length}

abbrev pub HashMap {ℓ} : Type ℓ → Type ℓ
HashMap V = List (ℕ × V)

module _ {ℓ} {V : Type ℓ} where
  unfoldable pub get : ℕ → HashMap V → Option V
  get k [] = none
  get k ((j, e) ∷ m) = if j == k then some e else get k m

  unfoldable pub contains_key : ℕ → HashMap V → Bool
  contains_key k [] = false
  contains_key k ((j, e) ∷ m) = if j == k then true else contains_key k m

  unfoldable pub insert : ℕ → V → HashMap V → HashMap V
  insert k e [] = (k, e) ∷ []
  insert k e ((j, f) ∷ m) = if j == k then (k, e) ∷ m else (j, f) ∷ insert k e m

  unfoldable pub remove : ℕ → HashMap V → HashMap V
  remove k [] = []
  remove k ((j, e) ∷ m) = if j == k then m else (j, e) ∷ remove k m

  -- No two pairs have the same key.
  abbrev pub IsDistinct : HashMap V → Type ℓ
  IsDistinct [] = Unit
  IsDistinct ((j, e) ∷ m) = (get j m ≡ none) × IsDistinct m

  pub get-insert :
      (k j : ℕ) (v : V) (m : HashMap V)
      → get j (insert k v m) ≡ (if k == j then some v else get j m)
  unfolding get insert
  get-insert k j v [] = refl
  get-insert k j v ((i, w) ∷ m) = ground (arith, get-insert k j v m)

  pub get-insert_self : (k : ℕ) (v : V) (m : HashMap V) → get k (insert k v m) ≡ some v
  get-insert_self k v m = ground (arith, get-insert k k v m)

  pub get-remove :
      (k j : ℕ) (m : HashMap V)
      → IsDistinct m
      → get j (remove k m) ≡ (if k == j then none else get j m)
  unfolding get remove
  get-remove k j [] d = ground arith
  get-remove k j ((i, w) ∷ m) d = ground (arith, get-remove k j m d.1)

  pub insert-IsDistinct : (k : ℕ) (v : V) (m : HashMap V) → IsDistinct m → IsDistinct (insert k v m)
  unfolding get insert
  insert-IsDistinct k v [] d = (refl, tt)
  insert-IsDistinct k v ((i, w) ∷ m) d =
      ground (arith, insert-IsDistinct k v m d.1, get-insert k i v m)

  pub remove-IsDistinct : (k : ℕ) (m : HashMap V) → IsDistinct m → IsDistinct (remove k m)
  unfolding get remove
  remove-IsDistinct k [] d = tt
  remove-IsDistinct k ((i, w) ∷ m) d =
      ground (arith, remove-IsDistinct k m d.1, get-remove k i m d.1)

  pub contains_key-get :
      (k : ℕ) (m : HashMap V) → contains_key k m ≡ elim (get k m) [ none ↦ false | some v ↦ true ]
  unfolding get contains_key
  contains_key-get k [] = refl
  contains_key-get k ((i, w) ∷ m) = ground (arith, contains_key-get k m)

  pub length-insert :
      (k : ℕ) (v : V) (m : HashMap V) → get k m ≡ none → length (insert k v m) ≡ length m + 1
  unfolding get insert
  length-insert k v [] h = omega arith
  length-insert k v ((i, w) ∷ m) h = ground (arith, length-insert k v m)

  pub length-remove :
      (k : ℕ) (v : V) (m : HashMap V) → get k m ≡ some v → length (remove k m) + 1 ≡ length m
  unfolding get remove
  length-remove k v [] h = absurd (cc)
  length-remove k v ((i, w) ∷ m) h = ground (arith, length-remove k v m)

  -- Putting a new key in and taking it out again gives the same map.
  pub remove-insert : (k : ℕ) (v : V) (m : HashMap V) → get k m ≡ none → remove k (insert k v m) ≡ m
  unfolding get insert remove
  remove-insert k v [] h = ground arith
  remove-insert k v ((i, w) ∷ m) h = ground (arith, remove-insert k v m)

  -- The later of two values for one key stays.
  pub insert-insert : (k : ℕ) (v w : V) (m : HashMap V) → insert k w (insert k v m) ≡ insert k w m
  unfolding insert
  insert-insert k v w [] = ground arith
  insert-insert k v w ((i, x) ∷ m) = ground (arith, insert-insert k v w m)
