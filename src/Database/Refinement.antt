-- ===== src/Database/Refinement.antt =====
-- The trees of crates/common/src/db/tree.rs as maps from keys to values.
use snarkops.Common.{
  Result-cases, ok-injective, and_then-eq-ok, Result, All, and_then, sym, ◌∙◌, inr, ap, append-nil,
  inl, map_err-eq-ok, if◌then◌else◌, Bool-cases, ◌↔◌, Bool, ◌≡◌, Option, List, [], ◌∷◌, refl, arith,
  none, some, ok, true,
}
use snarkops.Common.Text.{text_eq-false, text_eq_iff, text_eq}
use snarkops.Format.{read_dataformat, write_dataformat, DataFormat}
use snarkops.Format.Laws.{read_dataformat-write_dataformat, IsLawful}
use snarkops.Database.{
  Bytes, DatabaseError, read_value, restore_found, delete, save_option, sled_error, restore, save,
  key_bytes, Sled, IsSled,
}

-- A write of a value at a key, or its removal.
pub data Write (K V : Type 0) : Type 0 where
  saved : K → V → Write K V
  saved_option : K → Option V → Write K V
  deleted : K → Write K V

module _ {T E : Type 0} (S : Sled T E) (sled_law : IsSled S) {H J K V : Type 0}
    (key_format : DataFormat H K) (value_format : DataFormat J V) {IsKey : K → Type 0}
    {IsValue : V → Type 0} (key_law : IsLawful key_format IsKey)
    (value_law : IsLawful value_format IsValue) where
  key_bytes_injective :
      (k j : K)
      → IsKey k
      → IsKey j
      → key_bytes S key_format value_format k ≡ key_bytes S key_format value_format j
      → k ≡ j
  key_bytes_injective k j vk vj e =
      let one = key_law.data_round_trip k [] vk in
      let other = key_law.data_round_trip j [] vj in cc (one, other, e)

  read_back :
      (v : V)
      → IsValue v
      → restore_found S key_format value_format (some (write_dataformat value_format v).bytes)
        ≡ ok (some v)
  unfolding restore_found read_value
  read_back v vv =
      let bytes = (write_dataformat value_format v).bytes in
      let reads : read_dataformat value_format bytes ≡ ok (v, []) =
        rw (append-nil bytes) at
          (read_dataformat-write_dataformat value_format v [] value_law vv) in
      rw reads refl

  delete-eq-ok :
      (t t' : T) (k : K) (found : Bool)
      → delete S key_format value_format t k ≡ ok (found, t')
      → (old : Option Bytes) × (S.remove t (key_bytes S key_format value_format k) ≡ ok (old, t'))
  unfolding delete
  delete-eq-ok t t' k found e =
      elim (Result-cases (S.remove t (key_bytes S key_format value_format k))) [
        | inl ((old, u), removed) ↦ (old, removed ∙ ground (arith, rw removed at e))
        | inr (error, failed) ↦ absurd (cc (rw failed at e))
      ]

  module _ (same : K → K → Bool) (same_iff : (k j : K) → (same k j ≡ true) ↔ (k ≡ j)) where
    -- The bytes of two keys are equal exactly if the keys are.
    bytes_same :
        (k j : K)
        → IsKey k
        → IsKey j
        → text_eq (key_bytes S key_format value_format k) (key_bytes S key_format value_format j)
          ≡ same k j
    bytes_same k j vk vj =
        let one = key_bytes S key_format value_format k in
        let other = key_bytes S key_format value_format j in
        elim (Bool-cases (same k j)) [
          | inl h ↦
              let e = (same_iff k j).0 h in
              (text_eq_iff one other).1 (ap (key_bytes S key_format value_format) e) ∙ sym h
          | inr h ↦
              text_eq-false one other (λ e.
                let eq = key_bytes_injective k j vk vj e in
                let yes_same = (same_iff k j).1 eq in absurd (cc (h, yes_same)))
              ∙ sym h
        ]

    pub restore-save :
        (t t' : T) (k j : K) (v : V)
        → IsKey k
        → IsKey j
        → IsValue v
        → save S key_format value_format t k v ≡ ok t'
        → restore S key_format value_format t' j
          ≡ (if same k j then ok (some v) else restore S key_format value_format t j)
    unfolding save restore
    restore-save t t' k j v vk vj vv e =
        let bytes = (write_dataformat value_format v).bytes in
        let inserted : S.insert t (key_bytes S key_format value_format k) bytes ≡ ok t' =
          map_err-eq-ok (S.insert t (key_bytes S key_format value_format k) bytes) sled_error e in
        rw
          (
            sled_law.get-insert t t' (key_bytes S key_format value_format k) bytes
                (key_bytes S key_format value_format j) inserted,
            bytes_same k j vk vj,
          )
          (elim (Bool-cases (same k j)) [ inl h ↦ rw h (read_back v vv) | inr h ↦ rw h refl ])

    pub restore-delete :
        (t t' : T) (k j : K) (found : Bool)
        → IsKey k
        → IsKey j
        → delete S key_format value_format t k ≡ ok (found, t')
        → restore S key_format value_format t' j
          ≡ (if same k j then ok none else restore S key_format value_format t j)
    unfolding delete restore restore_found
    restore-delete t t' k j found vk vj e =
        let (old, done) = delete-eq-ok t t' k found e in
        rw
          (
            sled_law.get-remove t t' (key_bytes S key_format value_format k)
                (key_bytes S key_format value_format j) old done,
            bytes_same k j vk vj,
          )
          (elim (Bool-cases (same k j)) [ inl h ↦ rw h refl | inr h ↦ rw h refl ])

    unfoldable pub write_to : T → Write K V → Result (DatabaseError E) T
    unfolding save save_option delete
    write_to t (saved k v) = save S key_format value_format t k v
    write_to t (saved_option k v) = save_option S key_format value_format t k v
    write_to t (deleted k) = and_then (delete S key_format value_format t k) λ (found, t'). ok t'

    unfoldable pub write_all : T → List (Write K V) → Result (DatabaseError E) T
    unfolding write_to
    write_all t [] = ok t
    write_all t (w ∷ ws) = and_then (write_to t w) λ t'. write_all t' ws

    -- The same writes to a map of keys to values.
    abbrev update : (K → Option V) → Write K V → K → Option V
    update f (saved k v) j = if same k j then some v else f j
    update f (saved_option k v) j = if same k j then v else f j
    update f (deleted k) j = if same k j then none else f j

    abbrev pub replay : (K → Option V) → List (Write K V) → K → Option V
    replay f [] = f
    replay f (w ∷ ws) = replay (update f w) ws

    abbrev pub IsWrite : Write K V → Type 0
    IsWrite (saved k v) = IsKey k × IsValue v
    IsWrite (saved_option k none) = IsKey k
    IsWrite (saved_option k (some v)) = IsKey k × IsValue v
    IsWrite (deleted k) = IsKey k

    -- A tree has the values of a map.
    abbrev pub Represents : T → (K → Option V) → Type 0
    Represents t f = (j : K) → IsKey j → restore S key_format value_format t j ≡ ok (f j)

    drop_found :
        (t t' : T) (k : K)
        → and_then (delete S key_format value_format t k) (λ (found, u). ok u) ≡ ok t'
        → (found : Bool) × (delete S key_format value_format t k ≡ ok (found, t'))
    drop_found t t' k e = elim (Result-cases (delete S key_format value_format t k)) [
      | inl ((found, u), removed) ↦ (found, removed ∙ ground (arith, rw removed at e))
      | inr (error, failed) ↦ absurd (cc (rw failed at e))
    ]

    write_to-Represents :
        (t t' : T) (f : K → Option V) (w : Write K V)
        → IsWrite w
        → Represents t f
        → write_to t w ≡ ok t'
        → Represents t' (update f w)
    unfolding write_to save_option
    write_to-Represents t t' f (saved k v) (vk, vv) r e j vj =
        let old = r j vj in ground (arith, restore-save t t' k j v vk vj vv e, old)
    write_to-Represents t t' f (saved_option k (some v)) (vk, vv) r e j vj =
        let old = r j vj in ground (arith, restore-save t t' k j v vk vj vv e, old)
    write_to-Represents t t' f (saved_option k none) vk r e j vj =
        let old = r j vj in
        let (found, removed) = drop_found t t' k e in
        ground (arith, restore-delete t t' k j found vk vj removed, old)
    write_to-Represents t t' f (deleted k) vk r e j vj =
        let old = r j vj in
        let (found, removed) = drop_found t t' k e in
        ground (arith, restore-delete t t' k j found vk vj removed, old)

    -- For keys and values with lawful formats: after writes that all succeed, a tree that had the
    -- values of a map has those of the map after the same writes.
    pub write_all_refines :
        (t t' : T) (f : K → Option V) (ws : List (Write K V))
        → All IsWrite ws
        → Represents t f
        → write_all t ws ≡ ok t'
        → Represents t' (replay f ws)
    unfolding write_all
    write_all_refines t t' f [] h r e = rw (← ok-injective e) r
    write_all_refines t t' f (w ∷ ws) h r e =
        let (u, first, rest) = and_then-eq-ok (write_to t w) (λ u. write_all u ws) e in
        write_all_refines u t' (update f w) ws h.1 (write_to-Represents t u f w h.0 r first) rest
