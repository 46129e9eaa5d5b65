-- ===== src/Hal/Filesystem/Listing.antt =====
-- `DirectoryEntries` and `DirectoryReader` of firmware/chiyo-hal/src/storage.rs: reading a directory
-- file by file.
use chiyocore.Base.{
  ℕ, zero, suc, ◌+◌, ◌≤◌, ◌≡◌, refl, ap, subst, ◌∙◌, sym, false, Option, none, some, List, [], ◌∷◌,
  ◌++◌, arith, leb, if◌then◌else◌, length, get_elem?, Option-cases, drop, map, ◌<◌, ◌≢◌,
}
use mathlib.Core.List.{append-nil, append_assoc}
use chiyocore.Base.{inl, inr}
use chiyocore.Base.Bytes.{Bytes, of_le}
use chiyocore.Hal.Keys.{DirKey, FileKey}
use chiyocore.Hal.Directory.{Directory}
use chiyocore.Hal.Outcome.{
  Outcome, ok, err, panicked, blocked, FirmwareError, Action, pure, panic, ◌>>=◌, >>=-step,
}
use chiyocore.Hal.MapStore.{MapStore}
use chiyocore.Hal.Filesystem.{Fs, fetch_directory, fetch_item, get, index_key, with_lock}

pub record DirectoryEntries : Type 0 where
  pub cursor : ℕ
  pub key : DirKey
  pub len : ℕ
  pub entries : List Bytes

-- `Iterator::next`; an index past the entries panics.
unfoldable pub next : DirectoryEntries → Outcome (Option FileKey) × DirectoryEntries
next d = if leb d.len d.cursor then (ok none, d) else elim (get_elem? d.entries d.cursor) [
  | none ↦ (panicked, d)
  | some e ↦
      (ok (some (record { dir = d.key; hash = of_le e })), record d { cursor = d.cursor + 1 })
]

-- What `next_file` yields: `Some(Ok(bytes))` or `Some(Err(e))`.
pub data Item : Type 0 where
  read : Bytes → Item
  failed : FirmwareError → Item

unfoldable pub entries_of : DirKey → Option Directory → Option DirectoryEntries
entries_of dir none = none
entries_of dir (some d) = some (record { cursor = 0; key = dir; len = d.len; entries = d.entries })

module _ {S : Type 0} (m : MapStore S) where
  unfoldable pub directory_entries :
      (Bytes → ℕ → ℕ) → DirKey → Action (Fs S) (Option DirectoryEntries)
  unfolding entries_of
  directory_entries xxh32 dir =
      with_lock (do d ← fetch_directory m (index_key m xxh32 dir); pure (entries_of dir d))

  -- `transpose` of the result of `get`: a missing file reads as the end of the directory.
  transpose : Outcome (Option Bytes) × Fs S → Outcome (Option Item) × Fs S
  transpose (ok none, fs) = (ok none, fs)
  transpose (ok (some bytes), fs) = (ok (some (read bytes)), fs)
  transpose (err e, fs) = (ok (some (failed e)), fs)
  transpose (panicked, fs) = (panicked, fs)
  transpose (blocked, fs) = (blocked, fs)

  unfoldable pub next_file : Outcome (Option FileKey) → Action (Fs S) (Option Item)
  unfolding transpose
  next_file (ok none) fs = (ok none, fs)
  next_file (ok (some key)) fs = transpose (get m key 4096 fs)
  next_file (err e) fs = (err e, fs)
  next_file panicked fs = (panicked, fs)
  next_file blocked fs = (blocked, fs)

  module _ {T : Type 0} (accept : Item → Outcome T) where
    abbrev pub push : List T → Outcome T → Action (Fs S) (List T)
    push cache (ok t) fs = (ok (cache ++ t ∷ []), fs)
    push cache (err e) fs = (err e, fs)
    push cache panicked fs = (panicked, fs)
    push cache blocked fs = (blocked, fs)

    -- The body of the loop.
    abbrev pub add :
        List T → (List T → Action (Fs S) (List T)) → Option Item → Action (Fs S) (List T)
    add cache rest none = pure cache
    add cache rest (some item) = push cache (accept item) >>= rest

    -- `while let Some(entry) = reader.next_file().await { cache.push(…) }` on fuel, where `accept` is
    -- what the caller makes of an entry. A directory of `n` entries needs `n + 1` rounds.
    unfoldable pub read_entries : ℕ → DirectoryEntries → List T → Action (Fs S) (List T)
    read_entries zero d cache = panic
    read_entries (suc fuel) d cache =
        next_file (next d).0 >>= add cache (read_entries fuel (next d).1)

module _ {ℓ} {A : Type ℓ} where
  get_elem?-drop :
      (xs : List A) (c : ℕ) (y : A) (ys : List A)
      → drop c xs ≡ y ∷ ys
      → (get_elem? xs c ≡ some y) × (drop (c + 1) xs ≡ ys) × (c + 1 ≤ length xs)
  get_elem?-drop [] zero y ys e = absurd (ground arith)
  get_elem?-drop [] (suc c) y ys e = absurd (ground arith)
  get_elem?-drop (x ∷ xs) zero y ys e = ground arith
  get_elem?-drop (x ∷ xs) (suc c) y ys e = ground (arith, get_elem?-drop xs c y ys e)

  length-le_of_drop : (xs : List A) (c : ℕ) → drop c xs ≡ [] → length xs ≤ c
  length-le_of_drop [] c e = omega arith
  length-le_of_drop (x ∷ xs) zero e = absurd (ground arith)
  length-le_of_drop (x ∷ xs) (suc c) e = omega (arith, length-le_of_drop xs c e)

next_end : (d : DirectoryEntries) → d.len ≤ d.cursor → next d ≡ (ok none, d)
unfolding next
next_end d h = ground arith

next-some :
    (d : DirectoryEntries) (e : Bytes)
    → d.cursor < d.len
    → get_elem? d.entries d.cursor ≡ some e
    → next d
      ≡ (ok (some (record { dir = d.key; hash = of_le e })), record d { cursor = d.cursor + 1 })
unfolding next
next-some d e h k = ground arith

module _ {S : Type 0} (m : MapStore S) where
  -- The files of a directory, in the order of its index, up to the first that is missing.
  abbrev pub files : Fs S → DirKey → List Bytes → List Bytes
  files fs dir [] = []
  files fs dir (e ∷ es) = elim (m.fetch fs.inner 4096 (record { dir = dir; hash = of_le e })) [
    | none ↦ []
    | some o ↦ elim o [ none ↦ [] | some bytes ↦ bytes ∷ files fs dir es ]
  ]

  next_file_answer :
      (k : FileKey) (fs : Fs S) (o : Option Bytes)
      → fs.locked ≡ false
      → m.fetch fs.inner 4096 k ≡ some o
      → next_file m (ok (some k)) fs ≡ (ok (elim o [ none ↦ none | some b ↦ some (read b) ]), fs)
  unfolding next_file get fetch_item
  next_file_answer k fs none free e = ground arith
  next_file_answer k fs (some b) free e = ground arith

  files_missing :
      (fs : Fs S) (dir : DirKey) (e : Bytes) (es : List Bytes)
      → m.fetch fs.inner 4096 (record { dir = dir; hash = of_le e }) ≡ some none
      → files fs dir (e ∷ es) ≡ []
  files_missing fs dir e es h = ground arith

  files_found :
      (fs : Fs S) (dir : DirKey) (e : Bytes) (es : List Bytes) (b : Bytes)
      → m.fetch fs.inner 4096 (record { dir = dir; hash = of_le e }) ≡ some (some b)
      → files fs dir (e ∷ es) ≡ b ∷ files fs dir es
  files_found fs dir e es b h = ground arith

module _ {S T : Type 0} (m : MapStore S) (accept : Item → Outcome T) where
  none_accepted : (ts : List T) → [] ≡ map {B = Outcome T} ok ts → [] ≡ ts
  none_accepted [] h = refl
  none_accepted (t ∷ ts) h = absurd (ground arith)

  some_accepted :
      (b : Bytes) (bs : List Bytes) (ts : List T)
      → map (λ b. accept (read b)) (b ∷ bs) ≡ map ok ts
      → (t : T) × (ts' : List T) × (ts ≡ t ∷ ts')
        × (accept (read b) ≡ ok t)
        × (map (λ b. accept (read b)) bs ≡ map ok ts')
  some_accepted b bs [] h = absurd (ground arith)
  some_accepted b bs (t ∷ ts) h = (t, ts, refl, ground arith, ground arith)

  read_entries_end :
      (fuel : ℕ) (d : DirectoryEntries) (cache : List T) (fs : Fs S)
      → next_file m (next d).0 fs ≡ (ok none, fs)
      → read_entries m accept (suc fuel) d cache fs ≡ (ok (cache ++ []), fs)
  unfolding read_entries
  read_entries_end fuel d cache fs e =
      >>=-step (next_file m (next d).0) (add m accept cache (read_entries m accept fuel (next d).1))
        fs e
      ∙ ap (λ l. (ok l, fs)) (sym (append-nil cache))

  read_entries_more :
      (fuel : ℕ) (d : DirectoryEntries) (cache : List T) (fs : Fs S) (item : Item) (t : T)
      → next_file m (next d).0 fs ≡ (ok (some item), fs)
      → accept item ≡ ok t
      → read_entries m accept (suc fuel) d cache fs
        ≡ read_entries m accept fuel (next d).1 (cache ++ t ∷ []) fs
  unfolding read_entries
  read_entries_more fuel d cache fs item t e k =
      >>=-step (next_file m (next d).0) (add m accept cache (read_entries m accept fuel (next d).1))
        fs e
      ∙ >>=-step (push m accept cache (accept item)) (read_entries m accept fuel (next d).1) fs
          (rw k refl)

  -- A loop over a directory returns what `accept` makes of its files, in the order of the index, up to
  -- the first file that is missing, and there it ends as at the end of the directory. For files that the
  -- caller accepts, and a flash that can be read.
  pub read_entries_from :
      (fuel : ℕ) (d : DirectoryEntries) (rest : List Bytes) (cache ts : List T) (fs : Fs S)
      → map (λ b. accept (read b)) (files m fs d.key rest) ≡ map ok ts
      → ((k : FileKey) → m.fetch fs.inner 4096 k ≢ none)
      → fs.locked ≡ false
      → d.len ≡ length d.entries
      → drop d.cursor d.entries ≡ rest
      → length rest < fuel
      → read_entries m accept fuel d cache fs ≡ (ok (cache ++ ts), fs)
  read_entries_from zero d rest cache ts fs accepted readable free whole at enough =
      absurd (omega arith)
  read_entries_from (suc fuel) d [] cache ts fs accepted readable free whole at enough =
      read_entries_end fuel d cache fs (
        rw (next_end d (omega (arith, length-le_of_drop d.entries d.cursor at)))
          (unfold next_file in refl))
      ∙ ap (λ l. (ok (cache ++ l), fs)) (none_accepted ts accepted)
  read_entries_from (suc fuel) d (e ∷ es) cache ts fs accepted readable free whole at enough =
      let (here, after, inside) = get_elem?-drop d.entries d.cursor e es at in
      let k : FileKey = record { dir = d.key; hash = of_le e } in
      let step = next-some d e (omega arith) here in
      elim (Option-cases (m.fetch fs.inner 4096 k)) [
        | inl broken ↦ absurd (readable k broken)
        | inr (none, absent) ↦
            read_entries_end fuel d cache fs (rw step (next_file_answer m k fs none free absent))
            ∙ ap (λ l. (ok (cache ++ l), fs))
                (none_accepted ts (
                  subst (λ l. map (λ b. accept (read b)) l ≡ map ok ts)
                    (files_missing m fs d.key e es absent) accepted))
        | inr (some b, found) ↦
            let (t, ts', same, one, others) = some_accepted b (files m fs d.key es) ts (
              subst (λ l. map (λ b. accept (read b)) l ≡ map ok ts)
                (files_found m fs d.key e es b found) accepted) in
            read_entries_more fuel d cache fs (read b) t
              (rw step (next_file_answer m k fs (some b) free found)) one
            ∙ rw step (
                read_entries_from fuel (record d { cursor = d.cursor + 1 }) es (cache ++ t ∷ []) ts'
                  fs others readable free whole after (omega arith))
            ∙ ap (λ l. (ok l, fs))
                (append_assoc cache (t ∷ []) ts' ∙ ap (λ l. cache ++ l) (sym same))
      ]

-- A directory that is there, opened at its first entry, on a flash that can be read.
pub record IsOpen {S : Type 0} (m : MapStore S) (xxh32 : Bytes → ℕ → ℕ) (dir : DirKey) (fs : Fs S)
    (d : DirectoryEntries) : Type 0 where
  pub free : fs.locked ≡ false
  pub readable : (k : FileKey) → m.fetch fs.inner 4096 k ≢ none
  pub opened : directory_entries m xxh32 dir fs ≡ (ok (some d), fs)
  pub first : d.cursor ≡ 0
  pub whole : d.len ≡ length d.entries

-- The whole loop over an open directory.
pub read_entries_all :
    {S T : Type 0} (m : MapStore S) (xxh32 : Bytes → ℕ → ℕ) (dir : DirKey) (fs : Fs S)
    (d : DirectoryEntries) (accept : Item → Outcome T) (ts : List T)
    → IsOpen m xxh32 dir fs d
    → map (λ b. accept (read b)) (files m fs d.key d.entries) ≡ map ok ts
    → read_entries m accept (d.len + 1) d [] fs ≡ (ok ts, fs)
read_entries_all m xxh32 dir fs d accept ts h accepted =
    read_entries_from m accept (d.len + 1) d d.entries [] ts fs accepted h.readable h.free h.whole
      (ap (λ n. drop n d.entries) h.first) (omega (arith, h.whole))
