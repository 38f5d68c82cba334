-- ===== src/Store/Tables.antt =====
-- `std::unordered_map` with string keys, as an association list with one entry to a key.
use mathlib.Core.Option
use printer_driver.Base.{
  Bytes, Option, none, some, List, [], ◌∷◌, ◌++◌, ◌≡◌, refl, ap, arith, if◌then◌else◌, eq_bytes,
  eq_bytes_iff, eq_bytes_self,
}

module _ {ℓ} {V : Type ℓ} where
  unfoldable pub lookup : Bytes → List (Bytes × V) → Option V
  lookup k [] = none
  lookup k ((j, v) ∷ m) = if eq_bytes j k then some v else lookup k m

  -- A write through the iterator that `find` returns; nothing if the key is not there.
  unfoldable pub update : Bytes → (V → V) → List (Bytes × V) → List (Bytes × V)
  update k f [] = []
  update k f ((j, v) ∷ m) = if eq_bytes j k then (j, f v) ∷ m else (j, v) ∷ update k f m

  -- `m[k] = v`.
  unfoldable pub assign : Bytes → V → List (Bytes × V) → List (Bytes × V)
  assign k v [] = (k, v) ∷ []
  assign k v ((j, w) ∷ m) = if eq_bytes j k then (j, v) ∷ m else (j, w) ∷ assign k v m

module _ {ℓ} {V : Type ℓ} where
  pub lookup-update :
      (k j : Bytes) (f : V → V) (m : List (Bytes × V))
      → lookup j (update k f m) ≡ (if eq_bytes k j then Option.map f (lookup j m) else lookup j m)
  unfolding lookup update
  lookup-update k j f [] = ground arith
  lookup-update k j f ((i, v) ∷ m) =
      ground (arith, eq_bytes_iff k j, eq_bytes_iff i k, eq_bytes_iff i j, lookup-update k j f m)

  pub lookup-assign :
      (k j : Bytes) (v : V) (m : List (Bytes × V))
      → lookup j (assign k v m) ≡ (if eq_bytes k j then some v else lookup j m)
  unfolding lookup assign
  lookup-assign k j v [] = refl
  lookup-assign k j v ((i, w) ∷ m) =
      ground (arith, eq_bytes_iff k j, eq_bytes_iff i k, eq_bytes_iff i j, lookup-assign k j v m)

  pub lookup-append_new :
      (k j : Bytes) (v : V) (m : List (Bytes × V))
      → lookup k m ≡ none
      → lookup j (m ++ ((k, v) ∷ [])) ≡ (if eq_bytes k j then some v else lookup j m)
  unfolding lookup
  lookup-append_new k j v [] h = refl
  lookup-append_new k j v ((i, w) ∷ m) h =
      ground
        (arith, eq_bytes_iff k j, eq_bytes_iff i k, eq_bytes_iff i j, lookup-append_new k j v m)

  pub update-append_new :
      (k : Bytes) (f : V → V) (v : V) (m : List (Bytes × V))
      → lookup k m ≡ none
      → update k f (m ++ ((k, v) ∷ [])) ≡ m ++ ((k, f v) ∷ [])
  unfolding lookup update
  update-append_new k f v [] h = rw (eq_bytes_self k)
  update-append_new k f v ((i, w) ∷ m) h = ground (arith, update-append_new k f v m)

-- One function applied to every value.
abbrev pub map_values {ℓ} : {V : Type ℓ} → (V → V) → List (Bytes × V) → List (Bytes × V)
map_values g [] = []
map_values g ((k, v) ∷ m) = (k, g v) ∷ map_values g m

module _ {ℓ} {V : Type ℓ} (g : V → V) where
  pub map_values-append :
      (m n : List (Bytes × V)) → map_values g (m ++ n) ≡ map_values g m ++ map_values g n
  map_values-append [] n = refl
  map_values-append ((k, v) ∷ m) n = ap (◌∷◌ (k, g v)) (map_values-append m n)

  pub lookup-map_values_none :
      (k : Bytes) (m : List (Bytes × V)) → lookup k m ≡ none → lookup k (map_values g m) ≡ none
  unfolding lookup
  lookup-map_values_none k [] h = refl
  lookup-map_values_none k ((j, v) ∷ m) h = ground (arith, lookup-map_values_none k m)

  pub update-map_values :
      (k : Bytes) (f : V → V) (m : List (Bytes × V))
      → ((v : V) → f (g v) ≡ g (f v))
      → update k f (map_values g m) ≡ map_values g (update k f m)
  unfolding update
  update-map_values k f [] h = refl
  update-map_values k f ((j, v) ∷ m) h = ground (arith, h v, update-map_values k f m h)
