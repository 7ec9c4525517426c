-- ===== src/Database.antt =====
-- crates/common/src/db/tree.rs: typed maps over the byte maps of the crate `sled`.
pub mod Refinement
use snarkops.Common.{
  is_some, ◌+◌, if◌then◌else◌, Bool, ℕ, List, [], ◌∷◌, Option, none, some, Result, ok, err,
  and_then, map_err, ◌≡◌,
}
use snarkops.Common.Text.{text_eq}
use snarkops.Format.{DataFormat, DataReadError, read_dataformat, write_dataformat}

abbrev pub Bytes : Type 0
Bytes = List ℕ

-- A tree of `sled`, with its errors.
pub record Sled (T E : Type 0) : Type 0 where
  pub get : T → Bytes → Result E (Option Bytes)
  pub insert : T → Bytes → Bytes → Result E T
  pub remove : T → Bytes → Result E (Option Bytes × T)
  pub iter : T → List (Result E (Bytes × Bytes))
  pub scan_prefix : T → Bytes → List (Result E (Bytes × Bytes))

-- What a successful write changes, at every key.
pub record IsSled {T E : Type 0} (S : Sled T E) : Type 0 where
  pub get-insert :
      (t t' : T) (k v j : Bytes)
      → S.insert t k v ≡ ok t'
      → S.get t' j ≡ (if text_eq k j then ok (some v) else S.get t j)
  pub get-remove :
      (t t' : T) (k j : Bytes) (old : Option Bytes)
      → S.remove t k ≡ ok (old, t')
      → S.get t' j ≡ (if text_eq k j then ok none else S.get t j)

-- The errors that a tree returns; writes of data into memory have none.
pub data DatabaseError (E : Type 0) : Type 0 where
  sled_error : E → DatabaseError E
  read_error : DataReadError → DatabaseError E

-- `DbTree<K, V>`; `DbRecords<K>` has the same operations, for a type of values at each call.
module _ {T E : Type 0} (S : Sled T E) {H J K V : Type 0} (key_format : DataFormat H K)
    (value_format : DataFormat J V) where
  -- `to_byte_vec`
  abbrev pub key_bytes : K → Bytes
  key_bytes key = (key_format.write_data key).bytes

  unfoldable pub read_value : Bytes → Result (DatabaseError E) V
  read_value bytes =
      and_then (map_err read_error (read_dataformat value_format bytes)) λ (v, rest). ok v

  unfoldable pub restore_found : Option Bytes → Result (DatabaseError E) (Option V)
  restore_found none = ok none
  restore_found (some bytes) = and_then (read_value bytes) λ v. ok (some v)

  unfoldable pub restore : T → K → Result (DatabaseError E) (Option V)
  unfolding restore_found read_value
  restore t key = and_then (map_err sled_error (S.get t (key_bytes key))) restore_found

  unfoldable pub save : T → K → V → Result (DatabaseError E) T
  save t key value =
      map_err sled_error (S.insert t (key_bytes key) (write_dataformat value_format value).bytes)

  unfoldable pub delete : T → K → Result (DatabaseError E) (Bool × T)
  delete t key =
      and_then (map_err sled_error (S.remove t (key_bytes key))) λ (old, t'). ok (is_some old, t')

  unfoldable pub save_option : T → K → Option V → Result (DatabaseError E) T
  unfolding save delete
  save_option t key (some value) = save t key value
  save_option t key none = and_then (delete t key) λ (found, t'). ok t'

  -- A row that cannot be read is left out.
  unfoldable pub read_row : Result E (Bytes × Bytes) → Option (K × V)
  unfolding read_value
  read_row (err e) = none
  read_row (ok (key, value)) = elim (key_format.read_data key_format.latest_header key) [
    | err e ↦ none
    | ok (k, rest) ↦ elim (read_value value) [ err e ↦ none | ok v ↦ some (k, v) ]
  ]

  unfoldable pub read_rows : List (Result E (Bytes × Bytes)) → List (K × V)
  unfolding read_row
  read_rows [] = []
  read_rows (row ∷ rows) = elim (read_row row) [
    | none ↦ read_rows rows
    | some r ↦ r ∷ read_rows rows
  ]

  unfoldable pub read_all : T → List (K × V)
  unfolding read_rows
  read_all t = read_rows (S.iter t)

  unfoldable pub read_with_prefix : T → Bytes → List (K × V)
  unfolding read_rows
  read_with_prefix t prefix = read_rows (S.scan_prefix t prefix)

  -- A row of `delete_with_prefix`: whether it is counted, and the tree that is left.
  unfoldable pub delete_row : T → Result E (Bytes × Bytes) → ℕ × T
  unfolding delete
  delete_row t (err e) = (0, t)
  delete_row t (ok (key, value)) = elim (key_format.read_data key_format.latest_header key) [
    | err e ↦ (0, t)
    | ok (k, rest) ↦ elim (delete t k) [ err e ↦ (0, t) | ok (found, t') ↦ (1, t') ]
  ]

  unfoldable pub delete_rows : T → List (Result E (Bytes × Bytes)) → ℕ × T
  unfolding delete_row
  delete_rows t [] = (0, t)
  delete_rows t (row ∷ rows) =
      let (n, t') = delete_row t row in let (m, t'') = delete_rows t' rows in (n + m, t'')

  unfoldable pub delete_with_prefix : T → Bytes → ℕ × T
  unfolding delete_rows
  delete_with_prefix t prefix = delete_rows t (S.scan_prefix t prefix)
