-- ===== src/Fs/MemoryFileSystem.antt =====
-- system32/ntos/fs/memory-file-system.js: files in memory, by their paths.
use windows_10_js.Prelude.{
  ℕ, ◌≡◌, Bool, true, false, Option, none, some, List, [], ◌∷◌, length, ◌==◌, ltb, if◌then◌else◌,
}
use windows_10_js.Prelude.TextMap.{Text, same, get, put, remove, get-put, get-remove}
use windows_10_js.Cm.Keys.{is_some}

-- `string | ArrayBuffer`
pub data Content : Type 0 where
  characters : Text → Content
  binary : List ℕ → Content

abbrev pub Files : Type 0
Files = List (Text × Content)

unfoldable pub norm : Text → Text
norm [] = b'/' ∷ []
norm (c ∷ p) = if c == b'/' then c ∷ p else b'/' ∷ c ∷ p

unfoldable pub write : (p data_text : Text) → Files → Files
unfolding norm put
write p data_text files = put (norm p) (characters data_text) files

unfoldable pub write_bytes : (p : Text) (bytes : List ℕ) → Files → Files
unfolding norm put
write_bytes p bytes files = put (norm p) (binary bytes) files

unfoldable pub read : Text → Files → Option Content
unfolding norm get
read p files = get (norm p) files

unfoldable pub bytes_in : Option Content → Option (List ℕ)
bytes_in (some (binary bytes)) = some bytes
bytes_in other = none

unfoldable pub read_bytes : Text → Files → Option (List ℕ)
unfolding bytes_in read
read_bytes p files = bytes_in (read p files)

unfoldable pub is_binary : Text → Files → Bool
unfolding read_bytes
is_binary p files = is_some (read_bytes p files)

unfoldable pub exists_file : Text → Files → Bool
unfolding read
exists_file p files = is_some (read p files)

-- The files afterwards; the answer is whether there was one.
unfoldable pub remove_file : Text → Files → Bool × Files
unfolding exists_file norm remove
remove_file p files = (exists_file p files, remove (norm p) files)

-- The order of texts by their code units.
unfoldable pub precedes : Text → Text → Bool
precedes [] b = true
precedes (c ∷ a) [] = false
precedes (c ∷ a) (d ∷ b) = let rest = precedes a b in if c == d then rest else ltb c d

unfoldable pub insert_sorted : Text → List Text → List Text
unfolding precedes
insert_sorted p [] = p ∷ []
insert_sorted p (q ∷ ps) =
    let rest = insert_sorted p ps in if precedes p q then p ∷ q ∷ ps else q ∷ rest

unfoldable pub list : Files → List Text
unfolding insert_sorted
list [] = []
list (file ∷ files) = insert_sorted file.0 (list files)

-- `d ? … : -1`, where `none` is -1: an empty text is no file either.
unfoldable pub size_in : Option Content → Option ℕ
size_in none = none
size_in (some (characters [])) = none
size_in (some (characters (c ∷ t))) = some (length (c ∷ t))
size_in (some (binary bytes)) = some (length bytes)

unfoldable pub size : Text → Files → Option ℕ
unfolding size_in read
size p files = size_in (read p files)

-- A written text is read under every path that stands for the same one, and the other files are as
-- before.
pub read-write :
    (p data_text asked : Text) (files : Files)
    → read asked (write p data_text files)
      ≡ (if same (norm p) (norm asked) then some (characters data_text) else read asked files)
unfolding read write
read-write p data_text asked files = get-put (norm p) (characters data_text) files (norm asked)

-- A removed file is read no more, under none of its paths, and the other files are as before.
pub read-remove_file :
    (p asked : Text) (files : Files)
    → read asked (remove_file p files).1
      ≡ (if same (norm p) (norm asked) then none else read asked files)
unfolding read remove_file
read-remove_file p asked files = get-remove (norm p) files (norm asked)
