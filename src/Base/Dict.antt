-- ===== src/Base/Dict.antt =====
-- A map keyed by numbers, `HashMap<u64, V>` or a table with a numeric primary key, as an
-- association list. `insert` replaces, `remove` drops every entry of the key.
use Prim.Native.Nat.{ℕ}
use mathlib.Core.Path.{◌≡◌, refl}
use mathlib.Core.Option.{Option, none, some}
use mathlib.Core.List.{List, [], ◌∷◌}
use native.Mathlib.Omega.{arith}
use ethpayserver.Base.Tests.{◌==◌, if◌then◌else◌}

abbrev pub Dict {ℓ} : Type ℓ → Type ℓ
Dict V = List (ℕ × V)

module _ {ℓ} {V : Type ℓ} where
  abbrev pub get : ℕ → Dict V → Option V
  get k [] = none
  get k ((j, v) ∷ d) = if k == j then some v else get k d

  abbrev pub insert : ℕ → V → Dict V → Dict V
  insert k v [] = (k, v) ∷ []
  insert k v ((j, w) ∷ d) = if k == j then (k, v) ∷ d else (j, w) ∷ insert k v d

  abbrev pub remove : ℕ → Dict V → Dict V
  remove k [] = []
  remove k ((j, w) ∷ d) = if k == j then remove k d else (j, w) ∷ remove k d

  pub get-insert :
      (j k : ℕ) (v : V) (d : Dict V) → get j (insert k v d) ≡ (if j == k then some v else get j d)
  get-insert j k v [] = refl
  get-insert j k v ((i, w) ∷ d) = ground (arith, get-insert j k v d)

  pub get-remove : (j k : ℕ) (d : Dict V) → get j (remove k d) ≡ (if j == k then none else get j d)
  get-remove j k [] = ground arith
  get-remove j k ((i, w) ∷ d) = ground (arith, get-remove j k d)
