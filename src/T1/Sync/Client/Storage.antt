-- ===== src/T1/Sync/Client/Storage.antt =====
-- The space that a download takes of the limit of the library's tmpfs.
use sony_prs.Base.{
  ℕ, ◌+◌, ◌-◌, ◌≤◌, ◌≡◌, inl, inr, true, List, [], ◌∷◌, some, leb, Result, ok, err, arith,
  Result-cases,
}
use sony_prs.Bundle.{BundleError}
use sony_prs.Protocol.{Manifest, max_bundle_size}
use sony_prs.T1.Sync.{SyncError, stream_bundle, available_storage_bytes, required_storage_bytes}
use sony_prs.T1.Sync.Client.{
  Stored, stored_bytes, Download, extracted_within, same_manifest, archive_bound, store_extracted,
  stage_bundle,
}
use sony_prs.Bundle.Archive.Extraction.Limits.{IsMeasured, extract_with_size_limit-size}

stream_bundle-limited :
    (limit received : ℕ) (chunks : List (Result SyncError ℕ)) (staged : ℕ)
    → received ≤ limit
    → stream_bundle limit received chunks ≡ ok staged
    → staged ≤ limit
unfolding stream_bundle
stream_bundle-limited limit received [] staged b h = ground arith
stream_bundle-limited limit received (err e ∷ chunks) staged b h = absurd (ground arith)
stream_bundle-limited limit received (ok chunk ∷ chunks) staged b h =
    let ih = stream_bundle-limited limit (received + chunk) chunks staged in ground arith

-- The sizes of a download that was staged.
pub record IsStaged (limit : ℕ) (manifest : Manifest) (d : Download) (library archive : ℕ)
    (extracted : Manifest) (stored : Stored) : Type 0 where
  pub library_size : d.current_size ≡ ok library
  pub archive_size : stream_bundle (archive_bound d.content_length) 0 d.chunks ≡ ok archive
  pub bounded : archive ≤ max_bundle_size
  pub extraction : extracted_within d (limit - (library + archive)) ≡ ok (extracted, stored)
  pub fits : library + archive + stored_bytes stored ≤ limit
  pub same : same_manifest extracted manifest ≡ true

staged_parts :
    (limit : ℕ) (manifest : Manifest) (d : Download) (library archive : ℕ)
    → d.current_size ≡ ok library
    → stream_bundle (archive_bound d.content_length) 0 d.chunks ≡ ok archive
    → stage_bundle limit manifest d ≡ ok tt
    → (leb (archive_bound d.content_length) max_bundle_size ≡ true)
      × (library + archive ≤ limit)
      × (store_extracted manifest d (limit - (library + archive)) ≡ ok tt)
unfolding stage_bundle required_storage_bytes available_storage_bytes
staged_parts limit manifest d library archive e f h = ground arith

stored_same :
    (manifest : Manifest) (d : Download) (limit : ℕ) (extracted : Manifest) (stored : Stored)
    → extracted_within d limit ≡ ok (extracted, stored)
    → store_extracted manifest d limit ≡ ok tt
    → same_manifest extracted manifest ≡ true
unfolding store_extracted
stored_same manifest d limit extracted stored g h = ground arith

never_stored :
    (manifest : Manifest) (d : Download) (limit : ℕ) (e : BundleError)
    → extracted_within d limit ≡ err e
    → store_extracted manifest d limit ≡ ok tt
    → ⊥
unfolding store_extracted
never_stored manifest d limit e g h = ground arith

-- When the staging directory is empty at first, and a write adds at most the bytes written to it and
-- nothing else adds any, then a download that is staged stays within the limit with its library, its
-- archive and its extraction together; the archive is no larger than a bundle may be, and the
-- extracted manifest is the announced one.
pub stage_bundle-IsStaged :
    (limit : ℕ) (manifest : Manifest) (d : Download)
    → IsMeasured d.directory stored_bytes
    → ((s : Stored) → d.place.staging ≡ some s → stored_bytes s ≡ 0)
    → stage_bundle limit manifest d ≡ ok tt
    → (library archive : ℕ) × (extracted : Manifest) × (stored : Stored) × IsStaged limit manifest d
        library archive extracted stored
unfolding stage_bundle required_storage_bytes available_storage_bytes
stage_bundle-IsStaged limit manifest d measured empty h = elim (Result-cases d.current_size) [
  | inr (x, e) ↦ absurd (ground arith)
  | inl (library, e) ↦
      elim (Result-cases (stream_bundle (archive_bound d.content_length) 0 d.chunks)) [
        | inr (x, f) ↦ absurd (ground arith)
        | inl (archive, f) ↦
            let (bound, room, kept) = staged_parts limit manifest d library archive e f h in
            let rest = limit - (library + archive) in
            elim (Result-cases (extracted_within d rest)) [
              | inr (x, g) ↦ absurd (never_stored manifest d rest x g kept)
              | inl ((extracted, stored), g) ↦
                  let staged =
                    stream_bundle-limited (archive_bound d.content_length) 0 d.chunks archive
                      (omega arith) f in
                  let moved =
                    extract_with_size_limit-size d.from_slice d.directory stored_bytes measured rest
                      d.place d.entries d.trailing extracted stored empty g in
                  (
                    library,
                    archive,
                    extracted,
                    stored,
                    record {
                      library_size = e;
                      archive_size = f;
                      bounded = ground arith;
                      extraction = g;
                      fits = omega arith;
                      same = stored_same manifest d rest extracted stored g kept;
                    },
                  )
            ]
      ]
]
