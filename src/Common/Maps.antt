-- ===== src/Common/Maps.antt =====
-- A JavaScript `Map` with string keys, as an association list in the order of insertion. `set` on a
-- key that is there keeps the entry's place.
use mathlib.Core.Path.{◌≡◌, refl, sym, ap, ◌∙◌}
use mathlib.Core.Logic.{◌≢◌, inl, inr}
use mathlib.Core.Option.{Option, none, some}
use mathlib.Core.List.{List, [], ◌∷◌, ◌++◌, map}
use mathlib.Core.List.{Perm}
use mathlib.Core.List.Perm
use native.Mathlib.Omega.{arith}
use colibri.Common.Tests.{if◌then◌else◌, Bool-cases}
use colibri.Common.Strings.{Text, text_eq, text_eq_iff, text_ne}

module _ {ℓ} {V : Type ℓ} where
  unfoldable pub map_get : Text → List (Text × V) → Option V
  map_get k [] = none
  map_get k ((j, v) ∷ m) = if text_eq j k then some v else map_get k m

  unfoldable pub map_set : Text → V → List (Text × V) → List (Text × V)
  map_set k v [] = (k, v) ∷ []
  map_set k v ((j, w) ∷ m) = if text_eq j k then (j, v) ∷ m else (j, w) ∷ map_set k v m

  unfoldable pub map_delete : Text → List (Text × V) → List (Text × V)
  map_delete k [] = []
  map_delete k ((j, w) ∷ m) = if text_eq j k then m else (j, w) ∷ map_delete k m

  abbrev pub values : List (Text × V) → List V
  values = map (λ e. e.1)

  abbrev pub keys : List (Text × V) → List Text
  keys = map (λ e. e.0)

  -- No key occurs twice, as in every map that is built by `set` and `delete`.
  abbrev pub HasDistinctKeys : List (Text × V) → Type ℓ
  HasDistinctKeys [] = Unit
  HasDistinctKeys ((j, w) ∷ m) = (map_get j m ≡ none) × HasDistinctKeys m

module _ {ℓ} {V : Type ℓ} where
  pub map_get-set :
      (j k : Text) (v : V) (m : List (Text × V))
      → map_get j (map_set k v m) ≡ (if text_eq k j then some v else map_get j m)
  unfolding map_get map_set
  map_get-set j k v [] = refl
  map_get-set j k v ((i, w) ∷ m) =
      ground (arith, text_eq_iff k j, text_eq_iff i k, text_eq_iff i j, map_get-set j k v m)

  pub map_get-delete_ne :
      (j k : Text) (m : List (Text × V)) → k ≢ j → map_get j (map_delete k m) ≡ map_get j m
  unfolding map_get map_delete
  map_get-delete_ne j k [] h = refl
  map_get-delete_ne j k ((i, w) ∷ m) h =
      ground (arith, text_eq_iff i k, text_eq_iff i j, map_get-delete_ne j k m h)

  pub map_get-delete_self :
      (k : Text) (m : List (Text × V)) → HasDistinctKeys m → map_get k (map_delete k m) ≡ none
  unfolding map_get map_delete
  map_get-delete_self k [] h = refl
  map_get-delete_self k ((i, w) ∷ m) h =
      ground (arith, text_eq_iff i k, map_get-delete_self k m h.1)

  pub map_get-delete :
      (j k : Text) (m : List (Text × V))
      → HasDistinctKeys m
      → map_get j (map_delete k m) ≡ (if text_eq k j then none else map_get j m)
  map_get-delete j k m h = elim (Bool-cases (text_eq k j)) [
    | inl same ↦ rw (same, sym ((text_eq_iff k j).0 same)) (map_get-delete_self k m h)
    | inr other ↦ rw other (map_get-delete_ne j k m (text_ne k j other))
  ]

  pub map_set-HasDistinctKeys :
      (k : Text) (v : V) (m : List (Text × V)) → HasDistinctKeys m → HasDistinctKeys (map_set k v m)
  unfolding map_get map_set
  map_set-HasDistinctKeys k v [] h = (refl, tt)
  map_set-HasDistinctKeys k v ((i, w) ∷ m) h = elim (Bool-cases (text_eq i k)) [
    | inl same ↦ rw same h
    | inr other ↦ rw other (
      map_get-set i k v m ∙ ground (arith, text_eq_iff k i, text_eq_iff i k),
      map_set-HasDistinctKeys k v m h.1,
    )
  ]

  pub map_delete-HasDistinctKeys :
      (k : Text) (m : List (Text × V)) → HasDistinctKeys m → HasDistinctKeys (map_delete k m)
  unfolding map_delete
  map_delete-HasDistinctKeys k [] h = tt
  map_delete-HasDistinctKeys k ((i, w) ∷ m) h = elim (Bool-cases (text_eq i k)) [
    | inl same ↦ rw same h.1
    | inr other ↦ rw other (
      map_get-delete_ne i k m (ground (arith, text_eq_iff i k)) ∙ h.0,
      map_delete-HasDistinctKeys k m h.1,
    )
  ]

  pub values-set_new :
      (k : Text) (v : V) (m : List (Text × V))
      → map_get k m ≡ none
      → values (map_set k v m) ≡ values m ++ v ∷ []
  unfolding map_get map_set
  values-set_new k v [] h = refl
  values-set_new k v ((i, w) ∷ m) h = elim (Bool-cases (text_eq i k)) [
    | inl same ↦ ground arith
    | inr other ↦ rw other (ap (λ r. w ∷ r) (values-set_new k v m (ground arith)))
  ]

  pub values-delete :
      (k : Text) (v : V) (m : List (Text × V))
      → map_get k m ≡ some v
      → Perm (values m) (v ∷ values (map_delete k m))
  unfolding map_get map_delete
  values-delete k v [] h = cc
  values-delete k v ((i, w) ∷ m) h = elim (Bool-cases (text_eq i k)) [
    | inl same ↦ rw same (Perm.cons' (ground arith) Perm.rfl)
    | inr other ↦
        rw other (Perm.trans (Perm.cons w (values-delete k v m (ground arith))) (Perm.swap v w _))
  ]
