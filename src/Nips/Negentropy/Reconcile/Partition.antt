-- ===== src/Nips/Negentropy/Reconcile/Partition.antt =====
-- How the initiator of src/nips/nip77.ts compares an id list of the peer with its own range.
use nostr_js.Base.{
  ◌≡◌, refl, Bool, true, false, not, ◌&&◌, List, [], ◌∷◌, arith, any, Text, text_eq, ◌==◌, eq_iff,
  Bool-cases, inl, inr, ap, sym, ◌∙◌,
}
use nostr_js.Runtime.Map
use nostr_js.Runtime.Map.{Map}
use nostr_js.Nips.Negentropy.{Bytes, Codec, NegItem}
use nostr_js.Nips.Negentropy.Reconcile.{partition_ids}

module _ (codec : Codec) where
  -- an item of the list has this id
  abbrev pub names : List NegItem → Text → Bool
  names items j = any (λ item. codec.bytes_to_hex item.id == j) items

  abbrev pub HasDistinctIds : List NegItem → Type 0
  HasDistinctIds [] = Unit
  HasDistinctIds (x ∷ xs) = (names xs (codec.bytes_to_hex x.id) ≡ false) × HasDistinctIds xs

  new_key :
      (elems : Map Text Bytes) (k j : Text)
      → Map.has elems k ≡ false
      → k ≡ j
      → Map.has elems j ≡ false
  new_key elems k j h e = ap (λ i. Map.has elems i) (sym e) ∙ h

  partition_found :
      (x : NegItem) (items : List NegItem) (elems : Map Text Bytes) (j : Text)
      → names items (codec.bytes_to_hex x.id) ≡ false
      → Map.has elems (codec.bytes_to_hex x.id) ≡ true
      → (names items j && not (Map.has (Map.delete elems (codec.bytes_to_hex x.id)) j))
        ≡ (names (x ∷ items) j && not (Map.has elems j))
  unfolding any
  partition_found x items elems j fresh known = elim (Bool-cases (codec.bytes_to_hex x.id == j)) [
    | inl same ↦
        let e = (eq_iff (codec.bytes_to_hex x.id) j).0 same in
        ground (
          arith,
          Map.get-delete elems (codec.bytes_to_hex x.id) j,
          e,
          ap (λ k. Map.get elems k) e,
          ap (λ k. names items k) e,
        )
    | inr other ↦ ground (arith, Map.get-delete elems (codec.bytes_to_hex x.id) j)
  ]

  have_partition :
      (items : List NegItem) (elems : Map Text Bytes) (j : Text)
      → HasDistinctIds items
      → any (λ id. id == j) (partition_ids codec items elems).0
        ≡ (names items j && not (Map.has elems j))
  unfolding partition_ids any
  have_partition [] elems j d = refl
  have_partition (x ∷ items) elems j d =
      elim (Bool-cases (Map.has elems (codec.bytes_to_hex x.id))) [
        | inl known ↦ rw known (
            have_partition items (Map.delete elems (codec.bytes_to_hex x.id)) j d.1
            ∙ partition_found x items elems j d.0 known)
        | inr new ↦ rw new (
            ground (
              arith,
              have_partition items elems j d.1,
              eq_iff (codec.bytes_to_hex x.id) j,
              new_key elems (codec.bytes_to_hex x.id) j,
            ))
      ]

  left_partition :
      (items : List NegItem) (elems : Map Text Bytes) (j : Text)
      → Map.has (partition_ids codec items elems).1 j ≡ (Map.has elems j && not (names items j))
  unfolding partition_ids any
  left_partition [] elems j = ground arith
  left_partition (x ∷ items) elems j = elim (Bool-cases (Map.has elems (codec.bytes_to_hex x.id))) [
    | inl known ↦ rw known (
        left_partition items (Map.delete elems (codec.bytes_to_hex x.id)) j
        ∙ ground (arith, Map.get-delete elems (codec.bytes_to_hex x.id) j))
    | inr new ↦ rw new (
        ground (
          arith,
          left_partition items elems j,
          eq_iff (codec.bytes_to_hex x.id) j,
          new_key elems (codec.bytes_to_hex x.id) j,
        ))
  ]

  -- When the ids of the range are distinct, the initiator finds in `have` exactly the ids of its own
  -- range that the peer did not list, and leaves for `need` exactly the listed ids that are not in
  -- its range.
  pub partition_ids_lem :
      (items : List NegItem) (elems : Map Text Bytes) (j : Text)
      → HasDistinctIds items
      → (any (λ id. id == j) (partition_ids codec items elems).0
          ≡ (names items j && not (Map.has elems j)))
        × (Map.has (partition_ids codec items elems).1 j ≡ (Map.has elems j && not (names items j)))
  partition_ids_lem items elems j d = (have_partition items elems j d, left_partition items elems j)
