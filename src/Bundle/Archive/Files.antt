-- ===== src/Bundle/Archive/Files.antt =====
-- The state of `process_archive` in the middle of an archive that is extracted to memory.
use sony_prs.Base.{
  ℕ, ◌+◌, ◌≤◌, ◌≡◌, refl, ap, Bool, true, false, ◌&&◌, ◌||◌, List, [], ◌∷◌, ◌++◌, Option, none,
  some, arith, ok, length, All,
}
use sony_prs.Text.{Str, str_eq}
use sony_prs.Text.Equality.{str_eq→eq}
use sony_prs.Protocol.{max_bundle_size, BundlePath, ManifestFile, Manifest}
use sony_prs.Bundle.{manifest_path}
use sony_prs.Bundle.Manifests.{validate_manifest, find_file}
use sony_prs.Bundle.Archive.{Entry, State, read_entry, contains_path, has_manifest}

abbrev pub Files : Type 0
Files = List (BundlePath × List ℕ)

abbrev pub names : Files → List Str
names [] = []
names (f ∷ fs) = f.0.value ∷ names fs

abbrev pub total_bytes : Files → ℕ
total_bytes [] = 0
total_bytes (f ∷ fs) = length f.1 + total_bytes fs

abbrev pub AllDistinct : List Str → Type 0
AllDistinct [] = Unit
AllDistinct (p ∷ ps) = (contains_path p ps ≡ false) × AllDistinct ps

-- The file is listed with its own size.
abbrev pub IsListed : List ManifestFile → BundlePath × List ℕ → Type 0
IsListed expected (path, bytes) =
    (f : ManifestFile) × (find_file path.value expected ≡ some f) × (f.size ≡ length bytes)

abbrev pub IsValidated : Option Manifest → List ManifestFile → Files → Type 0
IsValidated none expected files = (expected ≡ []) × (files ≡ [])
IsValidated (some m) expected files = validate_manifest m ≡ ok expected

pub record IsConsistent {D : Type 0} (s : State D) : Type 0 where
  pub validated : IsValidated s.manifest s.expected s.memory_files
  pub listed : All (IsListed s.expected) s.memory_files
  pub distinct : AllDistinct (names s.memory_files)
  pub kept :
      (x : Str)
      → contains_path x s.seen
        ≡ contains_path x (names s.memory_files)
          || has_manifest s.manifest && str_eq manifest_path x
  pub counted : total_bytes s.memory_files ≡ s.extracted_size
  pub bounded : s.extracted_size ≤ max_bundle_size

pub str_eq_comm : (s t : Str) → str_eq s t ≡ str_eq t s
str_eq_comm [] [] = refl
str_eq_comm [] (b ∷ t) = refl
str_eq_comm (a ∷ s) [] = refl
str_eq_comm (a ∷ s) (b ∷ t) = ground (arith, str_eq_comm s t)

pub contains_path-append :
    (x p : Str) (ps : List Str) → contains_path x (ps ++ p ∷ []) ≡ contains_path x ps || str_eq p x
unfolding contains_path
contains_path-append x p [] = ground arith
contains_path-append x p (q ∷ ps) = ground (arith, contains_path-append x p ps)

pub append-AllDistinct :
    (p : Str) (ps : List Str)
    → AllDistinct ps
    → contains_path p ps ≡ false
    → AllDistinct (ps ++ p ∷ [])
unfolding contains_path
append-AllDistinct p [] h fresh = (refl, tt)
append-AllDistinct p (q ∷ ps) h fresh = (
  ground (arith, contains_path-append q p ps, str_eq_comm p q),
  append-AllDistinct p ps h.1 (ground arith),
)

pub names-append :
    (files : Files) (f : BundlePath × List ℕ)
    → names (files ++ f ∷ []) ≡ names files ++ f.0.value ∷ []
names-append [] f = refl
names-append (g ∷ files) f = ap (λ ns. g.0.value ∷ ns) (names-append files f)

pub total_bytes-append :
    (files : Files) (f : BundlePath × List ℕ)
    → total_bytes (files ++ f ∷ []) ≡ total_bytes files + length f.1
total_bytes-append [] f = omega arith
total_bytes-append (g ∷ files) f = omega (arith, total_bytes-append files f)

pub read_entry-eq-ok :
    (entry : Entry) (bytes : List ℕ)
    → read_entry entry ≡ ok bytes
    → entry.size ≡ some (length bytes)
unfolding read_entry
read_entry-eq-ok entry bytes e = ground arith

pub kept_manifest :
    (x p : Str) (seen : List Str)
    → str_eq p manifest_path ≡ true
    → contains_path x seen ≡ false
    → contains_path x (p ∷ seen) ≡ contains_path x [] || true && str_eq manifest_path x
unfolding contains_path
kept_manifest x p seen is fresh = rw (str_eq→eq p manifest_path is, fresh) (ground arith)

pub kept_file :
    (x p : Str) (seen files : List Str) (b : Bool)
    → contains_path x seen ≡ contains_path x files || b
    → contains_path x (p ∷ seen) ≡ contains_path x (files ++ p ∷ []) || b
unfolding contains_path
kept_file x p seen files b e = ground (arith, contains_path-append x p files)

pub fresh_name :
    (p : Str) (files : List Str) (b : Bool)
    → contains_path p files || b ≡ false
    → contains_path p files ≡ false
fresh_name p files b e = ground arith

pub keep-IsValidated :
    (m : Option Manifest) (expected : List ManifestFile) (files files' : Files)
    → has_manifest m ≡ true
    → IsValidated m expected files
    → IsValidated m expected files'
keep-IsValidated none expected files files' started h = cc
keep-IsValidated (some m) expected files files' started h = h
