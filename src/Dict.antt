-- ===== src/Dict.antt =====
-- Go's maps with string keys, as association lists. The order of the entries is the order in which
-- `range` visits them, which Go leaves open: no theorem depends on it.
use code_sandbox.Prelude.{
  ◌≡◌, refl, arith, Option, none, some, List, [], ◌∷◌, if◌then◌else◌, Bytes, bytes_eq, bytes_eq_iff,
}

abbrev pub Dict {ℓ} : Type ℓ → Type ℓ
Dict V = List (Bytes × V)

module _ {ℓ} {V : Type ℓ} where
  -- v, ok := m[k]
  unfoldable pub lookup : Bytes → Dict V → Option V
  lookup k [] = none
  lookup k ((j, v) ∷ m) = if bytes_eq j k then some v else lookup k m

  -- m[k] = v
  unfoldable pub insert : Bytes → V → Dict V → Dict V
  insert k v [] = (k, v) ∷ []
  insert k v ((j, w) ∷ m) = if bytes_eq j k then (k, v) ∷ m else (j, w) ∷ insert k v m

  pub lookup-insert :
      (k j : Bytes) (v : V) (m : Dict V)
      → lookup j (insert k v m) ≡ (if bytes_eq k j then some v else lookup j m)
  unfolding lookup insert
  lookup-insert k j v [] = refl
  lookup-insert k j v ((i, w) ∷ m) =
      ground (arith, bytes_eq_iff k j, bytes_eq_iff i k, bytes_eq_iff i j, lookup-insert k j v m)

unfoldable pub keys {ℓ} : {V : Type ℓ} → Dict V → List Bytes
keys [] = []
keys ((k, v) ∷ m) = k ∷ keys m
