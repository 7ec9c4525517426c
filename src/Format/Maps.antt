-- ===== src/Format/Maps.antt =====
-- The sets and maps of crates/common/src/format/impl_collections.rs: their number of items, and the
-- items, which are inserted one after the other.
use snarkops.Common.Index.{
  set_insert, index_insert, IsFreshSet, IsFreshMap, set_insert-fresh, index_insert-fresh,
}
use snarkops.Common.Dict.{Dict}
use snarkops.Common.{
  ℕ, zero, suc, Bool, All, length, ok, List, [], ◌∷◌, ◌++◌, ◌≡◌, and_then_ok, append_assoc,
  append-nil,
}
use snarkops.Format.{
  DataFormat, Reader, Output, ◌>>=◌, ◌⊕◌, pure, write, default_write_header, default_read_header,
}
use snarkops.Format.Laws.{IsLawful, default_read_header-default_write_header}
use snarkops.Format.Packed.{write_packed, read_packed}
use snarkops.Format.Packed.RoundTrip.{read_packed-write_packed, IsU64}
use snarkops.Format.Collections.{write_items, write_vec}

module _ {K H A : Type 0} (header_format : DataFormat K H) (F : DataFormat H A)
    (same : A → A → Bool) where
  -- `for _ in 0..len { data.insert(reader.read_data(header)?); }`
  unfoldable pub read_set_items : H → ℕ → List A → Reader (List A)
  read_set_items header zero held = pure held
  read_set_items header (suc len) held = do
    item ← F.read_data header
    read_set_items header len (set_insert same held item)

  unfoldable pub read_set : H → Reader (List A)
  read_set header = do len ← read_packed; read_set_items header len []

  -- `IndexSet<T>`
  abbrev pub set_format : DataFormat H (List A)
  set_format = record {
    latest_header = F.latest_header;
    write_header = default_write_header header_format F.latest_header;
    read_header = default_read_header header_format;
    write_data = write_vec F;
    read_data = read_set;
  }

module _ {H I K V : Type 0} (F : DataFormat H K) (G : DataFormat I V) (same : K → K → Bool) where
  -- `for (key, value) in self.iter()`
  unfoldable pub write_entries : Dict K V → Output
  write_entries [] = write []
  write_entries ((k, v) ∷ d) = F.write_data k ⊕ G.write_data v ⊕ write_entries d

  unfoldable pub write_map : Dict K V → Output
  unfolding write_entries
  write_map d = write_packed (length d) ⊕ write_entries d

  unfoldable pub read_entries : H → I → ℕ → Dict K V → Reader (Dict K V)
  read_entries key_header value_header zero held = pure held
  read_entries key_header value_header (suc len) held = do
    k ← F.read_data key_header
    v ← G.read_data value_header
    read_entries key_header value_header len (index_insert same held k v)

  unfoldable pub read_map : H × I → Reader (Dict K V)
  unfolding read_entries
  read_map (key_header, value_header) = do
    len ← read_packed
    read_entries key_header value_header len []

module _ {K H A : Type 0} (header_format : DataFormat K H) (F : DataFormat H A)
    (same : A → A → Bool) {IsHeader : H → Type 0} {IsValid : A → Type 0}
    (header_law : IsLawful header_format IsHeader) (latest : IsHeader F.latest_header)
    (law : IsLawful F IsValid) where
  -- A set of fewer than 2^64 valid items, none of them twice.
  abbrev pub IsIndexSet : List A → Type 0
  IsIndexSet xs = IsU64 (length xs) × All IsValid xs × IsFreshSet same [] xs

  read_set_items-write_items :
      (held xs : List A) (rest : List ℕ)
      → All IsValid xs
      → IsFreshSet same held xs
      → read_set_items header_format F same F.latest_header
          (length xs)
          held
          ((write_items F xs).bytes ++ rest)
        ≡ ok (held ++ xs, rest)
  unfolding read_set_items write_items
  read_set_items-write_items held [] rest h k = rw (append-nil held)
  read_set_items-write_items held (x ∷ xs) rest h k = simp append_assoc (
      and_then_ok _ (law.data_round_trip x _ h.0) (
        rw (set_insert-fresh same held x k.0, ← append_assoc held (x ∷ []) xs)
          (read_set_items-write_items (held ++ x ∷ []) xs rest h.1 k.1)))

  pub set_format-IsLawful : IsLawful (set_format header_format F same) IsIndexSet
  unfolding read_set write_vec
  set_format-IsLawful = record {
    data_round_trip = λ xs rest (len, h, k). simp append_assoc (
        and_then_ok _ (read_packed-write_packed (length xs) _ len)
          (read_set_items-write_items [] xs rest h k));
    header_round_trip = λ xs rest.
        default_read_header-default_write_header header_format F.latest_header xs rest header_law
          latest;
  }

module _ {H I K V : Type 0} (F : DataFormat H K) (G : DataFormat I V) (same : K → K → Bool)
    {IsKey : K → Type 0} {IsValue : V → Type 0} (left : IsLawful F IsKey)
    (right : IsLawful G IsValue) where
  -- A map of fewer than 2^64 valid entries, no key twice.
  abbrev pub IsIndexMap : Dict K V → Type 0
  IsIndexMap d = IsU64 (length d) × All (λ e. IsKey e.0 × IsValue e.1) d × IsFreshMap same [] d

  read_entries-write_entries :
      (held d : Dict K V) (rest : List ℕ)
      → All (λ e. IsKey e.0 × IsValue e.1) d
      → IsFreshMap same held d
      → read_entries F G same F.latest_header G.latest_header
          (length d)
          held
          ((write_entries F G same d).bytes ++ rest)
        ≡ ok (held ++ d, rest)
  unfolding read_entries write_entries
  read_entries-write_entries held [] rest h k = rw (append-nil held)
  read_entries-write_entries held ((x, v) ∷ d) rest h k = simp append_assoc (
      and_then_ok _ (left.data_round_trip x _ h.0.0) (
        and_then_ok _ (right.data_round_trip v _ h.0.1) (
          rw (index_insert-fresh same held x v k.0, ← append_assoc held ((x, v) ∷ []) d)
            (read_entries-write_entries (held ++ (x, v) ∷ []) d rest h.1 k.1))))

  -- Given lawful formats of keys and values: a map of fewer than 2^64 valid entries, no key twice, is
  -- read back from its bytes, in its order.
  pub read_map-write_map :
      (d : Dict K V) (rest : List ℕ)
      → IsIndexMap d
      → read_map F G same (F.latest_header, G.latest_header) ((write_map F G same d).bytes ++ rest)
        ≡ ok (d, rest)
  unfolding read_map write_map
  read_map-write_map d rest (len, h, k) = simp append_assoc (
      and_then_ok _ (read_packed-write_packed (length d) _ len)
        (read_entries-write_entries [] d rest h k))
