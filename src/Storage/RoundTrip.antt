-- ===== src/Storage/RoundTrip.antt =====
-- What is saved is loaded, and nothing else changes.
use kademlia_blockchain_auct.Prelude.{
  ◌≡◌, ◌⊎◌, ap, sym, ◌∙◌, String, List, [], Option, some, none, false, str_eq, str_eq_refl,
  str_eq_iff, if_true, if_false, if◌then◌else◌, Bool-cases, inl, inr,
}
use kademlia_blockchain_auct.Prelude.Result.{Result, ok, err}
use kademlia_blockchain_auct.Storage.{
  Disk, StorageError, put_file, Codec, CodecLaws, read_json, write_json, failed_to_read,
  failed_to_parse,
}

module _ {ℓ} {A : Type ℓ} (k : Codec A) (laws : CodecLaws k) (parent path : String) (value : List A)
    (disk : Disk) where
  written : Disk
  written = record disk { files = put_file path (some (k.to_string_pretty value)) disk.files }

  write_json_lem :
      disk.fails_create parent ≡ false
      → disk.fails_write path ≡ false
      → write_json k parent path value disk ≡ (ok tt, written)
  unfolding write_json written
  write_json_lem created wrote = if_false _ _ created ∙ if_false _ _ wrote

  read_json-written : disk.fails_read path ≡ false → read_json k path written ≡ ok value
  unfolding read_json written
  read_json-written readable =
      ap content_of (if_true (some (k.to_string_pretty value)) (disk.files path) (str_eq_refl path))
      ∙ if_false _ _ readable
      ∙ ap value_of (laws.parse_law value)
    where
      value_of : Option (List A) → Result StorageError (List A)
      value_of o = elim o [ some values ↦ ok values | none ↦ err (failed_to_parse path) ]

      content_of : Option String → Result StorageError (List A)
      content_of o = elim o [
        | none ↦ ok []
        | some contents ↦
            if disk.fails_read path then err (failed_to_read path) else value_of (k.parse contents)
      ]

  -- For any list of values, any path and any disk on which creating the directory, writing the file
  -- and reading it do not fail: `write_json` succeeds, `read_json` of the path then gives exactly
  -- these values, and every other file is as before.
  pub read_json-write_json :
      disk.fails_create parent ≡ false
      → disk.fails_write path ≡ false
      → disk.fails_read path ≡ false
      → ((write_json k parent path value disk).0 ≡ ok tt)
        × (read_json k path (write_json k parent path value disk).1 ≡ ok value)
        × ((other : String)
            → (path ≡ other)
              ⊎ ((write_json k parent path value disk).1.files other ≡ disk.files other))
  read_json-write_json created wrote readable =
      let e = write_json_lem created wrote in
      (
        ap (λ r. r.0) e,
        ap (λ r. read_json k path r.1) e ∙ read_json-written readable,
        λ other. elim (Bool-cases (str_eq other path)) [
          | inl same ↦ inl (sym ((str_eq_iff other path).0 same))
          | inr ne ↦ inr (ap (λ r. r.1.files other) e ∙ unfold written in if_false _ _ ne)
        ],
      )
