-- ===== src/Hal/Filesystem/Index.antt =====
-- What a successful `set` of `ChiyoFilesystem` does to the index of the directory.
use chiyocore.Base.{
  ℕ, ◌%◌, ◌<◌, ◌≡◌, refl, ap, sym, ◌∙◌, ◌≢◌, inl, inr, Bool, true, false, ◌||◌, Option, none, some,
  arith, Bool-cases, Option-cases, length, List, [], ◌∷◌, ◌++◌,
}
use chiyocore.Base.Bytes.{Bytes, bytes_eq, eq_of_bytes_eq, le32}
use chiyocore.Hal.Keys.{FileKey, DirKey}
use chiyocore.Hal.Directory.{
  Directory, contains, contains_entry, AreEntries, IsValid, deserialize_from-AreEntries,
  serialize_into-bound, deserialize_from-serialize_into,
}
use chiyocore.Hal.Directory
use chiyocore.Hal.Outcome.{ok}
use chiyocore.Hal.MapStore.{MapStore, IsLawful}
use chiyocore.Hal.Filesystem.{
  Fs, fetch_item, fetch_directory, store_directory, update_directory, set, index_key, sort_unstable,
  insert_sorted, decode_directory,
}
use chiyocore.Hal.Filesystem.Writes.{
  set-ok, store_item-fetched, store_item-AgreeBut, fetch_directory-state,
}

contains_entry-insert_sorted :
    (e x : Bytes) (xs : List Bytes)
    → contains_entry e (insert_sorted x xs) ≡ (bytes_eq x e || contains_entry e xs)
unfolding contains_entry insert_sorted
contains_entry-insert_sorted e x [] = refl
contains_entry-insert_sorted e x (y ∷ ys) = ground (arith, contains_entry-insert_sorted e x ys)

contains_entry-sort_unstable :
    (e : Bytes) (xs : List Bytes) → contains_entry e (sort_unstable xs) ≡ contains_entry e xs
unfolding contains_entry sort_unstable
contains_entry-sort_unstable e [] = refl
contains_entry-sort_unstable e (x ∷ xs) =
    contains_entry-insert_sorted e x (sort_unstable xs)
    ∙ ap (λ b. bytes_eq x e || b) (contains_entry-sort_unstable e xs)

contains_entry-append :
    (e : Bytes) (xs : List Bytes) (y : Bytes)
    → contains_entry e (xs ++ y ∷ []) ≡ (bytes_eq y e || contains_entry e xs)
unfolding contains_entry
contains_entry-append e [] y = refl
contains_entry-append e (x ∷ xs) y = ground (arith, contains_entry-append e xs y)

insert_sorted-AreEntries :
    (x : Bytes) (xs : List Bytes) → length x ≡ 4 → AreEntries xs → AreEntries (insert_sorted x xs)
unfolding insert_sorted
insert_sorted-AreEntries x [] h k = (h, tt)
insert_sorted-AreEntries x (y ∷ ys) h k = ground (arith, insert_sorted-AreEntries x ys h k.1)

sort_unstable-AreEntries : (xs : List Bytes) → AreEntries xs → AreEntries (sort_unstable xs)
unfolding sort_unstable
sort_unstable-AreEntries [] h = tt
sort_unstable-AreEntries (x ∷ xs) h =
    insert_sorted-AreEntries x _ h.0 (sort_unstable-AreEntries xs h.1)

append-AreEntries :
    (xs : List Bytes) (y : Bytes) → AreEntries xs → length y ≡ 4 → AreEntries (xs ++ y ∷ [])
append-AreEntries [] y h k = (k, tt)
append-AreEntries (x ∷ xs) y h k = (h.0, append-AreEntries xs y h.1 k)

length-le32 : (n : ℕ) → length (le32 n) ≡ 4
unfolding le32
length-le32 n = refl

module _ {S : Type 0} (m : MapStore S) (xxh32 : Bytes → ℕ → ℕ) where
  -- Whether the index of `dir` has the hash of `j`'s name.
  abbrev pub lists : DirKey → Fs S → FileKey → Bool
  lists dir fs j = elim (fetch_directory m (index_key m xxh32 dir) fs).0 [
    | ok d ↦ elim d [ none ↦ false | some d' ↦ contains d' j ]
    | _ ↦ false
  ]

  lists_of_bytes :
      (dir : DirKey) (fs : Fs S) (j : FileKey) (bytes : Bytes) (d : Directory) (n : ℕ)
      → m.fetch fs.inner 4096 (index_key m xxh32 dir) ≡ some (some bytes)
      → Directory.deserialize_from bytes ≡ some (d, n)
      → lists dir fs j ≡ contains d j
  unfolding fetch_directory fetch_item decode_directory
  lists_of_bytes dir fs j bytes d n e k = ground arith

  lists_of_fetch :
      (dir : DirKey) (fs fs' : Fs S)
      → m.fetch fs'.inner 4096 (index_key m xxh32 dir)
        ≡ m.fetch fs.inner 4096 (index_key m xxh32 dir)
      → (j : FileKey) → lists dir fs' j ≡ lists dir fs j
  unfolding fetch_directory fetch_item decode_directory
  lists_of_fetch dir fs fs' e j = ground arith

  lists_of_ok :
      (dir : DirKey) (fs fs' : Fs S) (j : FileKey) (d : Directory)
      → fetch_directory m (index_key m xxh32 dir) fs ≡ (ok (some d), fs')
      → lists dir fs j ≡ contains d j
  lists_of_ok dir fs fs' j d h = ground arith

  lists_of_absent :
      (dir : DirKey) (fs fs' : Fs S) (j : FileKey)
      → fetch_directory m (index_key m xxh32 dir) fs ≡ (ok none, fs')
      → lists dir fs j ≡ false
  lists_of_absent dir fs fs' j h = ground arith

  fetch_directory-AreEntries :
      (key : FileKey) (fs fs' : Fs S) (d : Directory)
      → fetch_directory m key fs ≡ (ok (some d), fs')
      → AreEntries d.entries
  unfolding fetch_directory fetch_item decode_directory
  fetch_directory-AreEntries key fs fs' d h = elim (Option-cases (m.fetch fs.inner 4096 key)) [
    | inl failed ↦ absurd (ground arith)
    | inr (o, e) ↦ elim (Option-cases o) [
      | inl absent ↦ absurd (ground arith)
      | inr (bytes, e') ↦ elim (Option-cases (Directory.deserialize_from bytes)) [
        | inl bad ↦ absurd (ground arith)
        | inr (p, e'') ↦
            let same : p.0 ≡ d = ground arith in
            rw (← same) (deserialize_from-AreEntries bytes p.0 p.1 e'')
      ]
    ]
  ]

  module _ (lawful : IsLawful m) where
    -- Storing a directory of which no entry is broken makes its entries the ones listed.
    store_directory-lists :
        (dir : DirKey) (entries : List Bytes) (fs fs' : Fs S) (j : FileKey)
        → dir < 4294967296
        → AreEntries entries
        → store_directory m
            (index_key m xxh32 dir)
            (record { len = length entries % 65536; dir_key = dir; entries = entries })
            fs
          ≡ (ok tt, fs')
        → lists dir fs' j ≡ contains_entry (le32 j.hash) entries
    unfolding store_directory contains
    store_directory-lists dir entries fs fs' j small whole h =
        let d : Directory = record {
          len = length entries % 65536;
          dir_key = dir;
          entries = entries;
        } in
        elim (Option-cases (Directory.serialize_into d 4096)) [
          | inl full ↦ absurd (ground arith)
          | inr (bytes, e) ↦
              let bound = serialize_into-bound d 4096 e in
              let valid : IsValid d = record {
                counted = omega arith;
                keyed = small;
                grouped = whole;
              } in
              let back = deserialize_from-serialize_into d 4096 valid (omega arith) e in
              let stored =
                store_item-fetched m lawful xxh32 (index_key m xxh32 dir) bytes fs fs' 4096
                  (rw e at h) (inl (omega arith)) in
              lists_of_bytes dir fs' j bytes d (length bytes) stored back
        ]

    contains_same :
        (d : Directory) (key j : FileKey)
        → contains d key ≡ true
        → contains d j ≡ (bytes_eq (le32 key.hash) (le32 j.hash) || contains d j)
    unfolding contains
    contains_same d key j h = elim (Bool-cases (bytes_eq (le32 key.hash) (le32 j.hash))) [
      | inl same ↦ rw (← eq_of_bytes_eq (le32 key.hash) (le32 j.hash) same) (ground arith)
      | inr other ↦ rw other refl
    ]

    update_directory_old :
        (dir : DirKey) (key : FileKey) (d : Directory) (fs : Fs S)
        → contains d key ≡ true
        → update_directory m xxh32 dir key (some d) fs ≡ (ok tt, fs)
    unfolding update_directory
    update_directory_old dir key d fs old = rw old

    update_directory_new :
        (dir : DirKey) (key : FileKey) (d : Directory) (fs : Fs S)
        → contains d key ≡ false
        → let entries = sort_unstable (d.entries ++ le32 key.hash ∷ []) in
          update_directory m xxh32 dir key (some d) fs
          ≡ store_directory m
              (index_key m xxh32 dir)
              (record { len = length entries % 65536; dir_key = dir; entries = entries })
              fs
    unfolding update_directory
    update_directory_new dir key d fs new = rw new

    update_directory-lists :
        (dir : DirKey) (key : FileKey) (d : Option Directory) (fs fs' : Fs S) (j : FileKey)
        → dir < 4294967296
        → fetch_directory m (index_key m xxh32 dir) fs ≡ (ok d, fs)
        → update_directory m xxh32 dir key d fs ≡ (ok tt, fs')
        → lists dir fs' j ≡ (bytes_eq (le32 key.hash) (le32 j.hash) || lists dir fs j)
    update_directory-lists dir key none fs fs' j small look h =
        store_directory-lists dir (le32 key.hash ∷ []) fs fs' j small (length-le32 key.hash, tt)
          (unfold update_directory in h)
        ∙ unfold contains_entry in
          ap (λ b. bytes_eq (le32 key.hash) (le32 j.hash) || b)
            (sym (lists_of_absent dir fs fs j look))
    update_directory-lists dir key (some d) fs fs' j small look h =
        let old_list = sym (lists_of_ok dir fs fs j d look) in
        let e = le32 key.hash in
        let whole = fetch_directory-AreEntries (index_key m xxh32 dir) fs fs d look in
        elim (Bool-cases (contains d key)) [
          | inl old ↦
              let same : fs ≡ fs' =
                ap (λ p. p.1) (sym (update_directory_old dir key d fs old) ∙ h) in
              rw (← same) (
                sym old_list
                ∙ contains_same d key j old
                ∙ ap (λ b. bytes_eq e (le32 j.hash) || b) old_list)
          | inr new ↦
              store_directory-lists dir (sort_unstable (d.entries ++ e ∷ [])) fs fs' j small
                (sort_unstable-AreEntries _
                  (append-AreEntries d.entries e whole (length-le32 key.hash)))
                (sym (update_directory_new dir key d fs new) ∙ h)
              ∙ contains_entry-sort_unstable (le32 j.hash) (d.entries ++ e ∷ [])
              ∙ contains_entry-append (le32 j.hash) d.entries e
              ∙ ap (λ b. bytes_eq e (le32 j.hash) || b) (unfold contains in old_list)
        ]

    -- Over a lawful flash map, after a successful `set` in a directory with a 32-bit key the index of the
    -- directory lists the key of the file, and otherwise what it listed before. (The key is not the one
    -- under which the index itself is stored.)
    pub set-lists :
        (dir : DirKey) (key : FileKey) (value : Bytes) (fs fs' : Fs S) (j : FileKey)
        → dir < 4294967296
        → key ≢ index_key m xxh32 dir
        → set m xxh32 dir key value fs ≡ (ok tt, fs')
        → lists dir fs' j ≡ (bytes_eq (le32 key.hash) (le32 j.hash) || lists dir fs j)
    set-lists dir key value fs fs' j small apart h =
        let (d, fs1, fs2, fs3, fetched, updated, stored, freed, free) =
          set-ok m lawful xxh32 dir key value fs fs' h in
        let fs0 : Fs S = record fs { locked = true } in
        let index = index_key m xxh32 dir in
        let same : fs1 ≡ fs0 = fetch_directory-state m lawful xxh32 index fs0 fs1 fetched in
        rw freed (
          lists_of_fetch dir fs2 (record fs3 { locked = false })
            (store_item-AgreeBut m lawful xxh32 key value fs2 fs3 stored 4096 index
              (λ e. apart (sym e)))
            j
          ∙ update_directory-lists dir key d fs0 fs2 j small (rw same at fetched)
              (rw same at updated)
          ∙ ap (λ b. bytes_eq (le32 key.hash) (le32 j.hash) || b)
              (lists_of_fetch dir fs fs0 refl j))
