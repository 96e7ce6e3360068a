-- ===== src/Lib.antt =====
-- A model of sony-prs, the software around three Sony readers: the serial agent of the PRS-350, the
-- native reader of the PRS-T1 with its bundles from a sync service, and the USB transport of the
-- PRS-X50 readers.
--
-- Parts, the files that model them, and the code:
--   Wire/      crates/prs350-wire/src/lib.rs. A host and the PRS-350 agent exchange lines.
--              `encode_request`, `decode_request`, `encode_response` and `decode_response` keep their
--              names; the match of each is a definition of its own (`request_line`, `parse_request`,
--              `response_line`, `parse_response`).
--   Protocol/  crates/prs-sync-protocol/src/lib.rs. The types that the sync service, the sender and
--              the T1 share: `new_path` is `BundlePath::new`, Texts has the other string types.
--   Bundle/    crates/prs-sync-bundle/src/lib.rs. A bundle is a tar archive with a manifest of
--              Protocol. Manifests has `validate_manifest` and `archive_path`; Archive has
--              `process_archive`, a step for each entry over a state that holds its local variables, and in
--              Extraction `extract_internal`, which moves what was extracted to its place;
--              Streams has the reader and the writer that keep the limits; Builder has
--              `collect_sources` and `make_manifest`, which `validate_manifest` stands against.
--   T1/        crates/prs-t1-agent/src: damage.rs (Damage, on Region, which has `DisplayRegion` of
--              framebuffer.rs), refresh.rs (Refresh), orientation.rs (Orientation) and
--              preferences.rs (Preferences, with constants of Markdown). The
--              agent compares two images, and submits the damaged region with the planned waveform.
--              Details has the controls of display.rs, their rectangles and hit tests. Ui has
--              runtime.rs: `UiState`, and the operations on it with the source's names. `observe` is
--              a chain of handlers, each a step of the source's function that returns early or goes
--              on (Observe, Keys, Activate, Pages, Focus); Dirty has `DirtyArea`, Session the
--              synchronization and the sleep. Navigation/Reach is the relation of what `run`, from
--              its start, and `sleep_cycle` do to the state, over any answers of the reader, the display
--              and the synchronization. An `unreachable!()` is the value `none`.
--              Power follows the power button's press and what asks for a reboot or a power-off.
--              Sync has sync.rs: Client the loop of `synchronize`, an attempt with the states of the
--              inbox and `download_and_publish`; Manifests its own check of a manifest, which stands
--              beside the one of Bundle that the archive goes through; Authorize the authorization and
--              its polls.
--   Markdown/  crates/prs-markdown/src, the reader that the T1 agent shows. Navigation has
--              navigation.rs, Geometry geometry.rs (with Coordinates, its `i32`). Pagination has
--              pagination.rs: Breaks `should_break_before`, Scan the loop of `paginate` over the
--              document's lines, Directory the page directory and `page_from_index`; a call of
--              `add_line` is a `Placement` on the page. Reader has the bounded reader of reader.rs:
--              Caches, Opened (an open document), History, Moves (loading and navigation) and Paging
--              (page turns, the history's moves, links, a new layout); `turn_page true` is
--              `next_page`, `move_history false` the move of `back`. Session has the overlay of an
--              external link and `dispatch` of session.rs, over any reader; its region is the one that
--              Ui/Dirty damages. Resources has the normalized paths of resources.rs and the provider of
--              a browser's files, with `Target` for `ResourceTarget`; the paths of the file system, which
--              follow links, are not modelled.
--   X50/       crates/sony-x50/src: protocol.rs (Protocol, on Words) and sony.rs (Sony). The
--              methods of `SonyExtendedTransport` run in the monad of Io, over a `Host` that stands
--              for the SCSI device and the output file.
--   Text/      what the code uses of Rust's strings: comparison, splitting, numbers and UTF-8.
--   Base/      names of the libraries and helpers on lists, tests and results.
--   Tests/     each result at a concrete input.
--
-- Conventions. A text is the list of its characters and bytes are numbers. An error keeps its
-- variant, without the message. A machine integer is a natural number whose wrap, saturation or
-- check is written out. `usize` has 64 bits on the hosts that read responses, and 32 bits on the T1.
--
-- Fuel. `synchronize` takes the rounds of its loop as fuel, and two are enough. The polls of an
-- authorization take their rounds: one more than the seconds to its expiry is enough, when the clock
-- is not set back and a wait between two polls takes at least a second. `read_chunks` and `copy_chunks` take the bytes that are left; each round
-- takes at least one, so that the loop's own condition ends it first. Numbers are printed with their
-- value as fuel. All other loops follow a list.
--
-- Parameters, for code outside the repository: the tar reader (the entries it gives), the JSON
-- decoder and encoder, the encoder of QR codes, the parsing of file paths, the files a
-- bundle is made of, the directory it is staged in, the SCSI device and the output file. What the
-- sync server, the clock and the file system around the library answer are arguments too. The
-- reader's `Backend` has the provider and the parser, which are type parameters of the source, and
-- the text layout of layout/mod.rs, which is the repository's own and not modelled.
--
-- Not modelled: device access, the command lines, HTTP, text layout, images, drawing, the texts of the T1's
-- screens, its network, the Cloudflare service, and the writing of a
-- bundle's archive.
pub mod Base
pub mod Text
pub mod Wire
pub mod Markdown
pub mod T1
pub mod X50
pub mod Protocol
pub mod Bundle
pub mod Tests
