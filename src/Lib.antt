-- ===== src/Lib.antt =====
-- A model of Reclaim, a data-recovery program: the block layer through which every medium is read,
-- the partition scan on top of it, the file systems FAT, exFAT, ext and ISO 9660 that are walked
-- for live and deleted files, the records of NTFS, and the matcher of file signatures.
--
-- Reads go through one interface, the trait BlockSource (crates/reclaim-block/src/source.rs): a
-- read never fails, it fills the buffer and reports each sector as good, bad or unread. Sources
-- wrap one another: a buffer in memory, a window of a source, a source with injected faults, a
-- virtual image made of segments, several sources end to end. The imager copies a source, chunk by
-- chunk, into an image file with a map beside it. The partition scan (crates/reclaim-part) reads a
-- source at any offset and reports partitions, whose windows the file systems are then looked for
-- in. A file system reads the same sources, and sends the entries that it finds, each with the
-- extents of its bytes.
--
-- Which file models what:
--   Block/Bitset     crates/reclaim-block/src/bitset.rs, words and bits
--   Block/Source     crates/reclaim-block/src/source.rs: ReadResult, and BlockSource as a record
--                    of functions; Source/Contract is what its comments promise, the
--                    shape of a read (IsSource) and its zeros (ZeroFills) apart
--   Block/Memory     crates/reclaim-block/src/memory.rs
--   Block/BadBlock   crates/reclaim-block/src/bad_block.rs, and in_ranges of imaging/mapped.rs
--   Block/View       crates/reclaim-block/src/offset_view.rs, and mark_bad_from_byte of
--                    image_file.rs
--   Block/Fault      crates/reclaim-block/src/fault.rs
--   Block/Segments   crates/reclaim-block/src/container/map.rs: SegmentMap::push and seg_for;
--                    Segments/Cache is DecodeCache, and Segments/Read the reads of MappedSource
--                    with decompress of container/codec.rs
--   Block/Concat     crates/reclaim-block/src/container/concat.rs
--   Imaging          crates/reclaim-block/src/imaging: map.rs (Types), dest.rs (Dest) and the loop
--                    over the chunks of imager.rs (Imager)
--   FsCore/Bitmap    crates/reclaim-fs-core/src/bitmap.rs
--   FsCore/Types     crates/reclaim-fs-core/src/lib.rs: entries, extents, options and counts
--   FsCore/Reader    the functions read and le_u16 that each file system has a copy of
--   FsCore/Text      what is used of the texts of the standard library; FsCore/Extents and
--                    FsCore/Pieces say where the bytes of a file lie
--   Fat/Boot         crates/fs-fat/src/lib.rs: the boot sector, open and probe
--   Fat/Table        the same file: FAT entries, chains, the bitmap, the bytes of a directory
--   Fat/Files        the same file: the extents of live and deleted files
--   Fat/Names        the same file: long and short names, and dates
--   Fat/Walk         the same file: walk_dir and walk
--   ExFat            crates/fs-exfat/src/lib.rs: Boot, Files, Names and Walk, as for FAT
--   Iso              crates/fs-iso/src/lib.rs: Volume (descriptors, probe, open) and Walk
--   Ext/Superblock   crates/fs-ext/src/sb.rs
--   Ext/Inode        crates/fs-ext/src/inode.rs: inodes, extent trees and indirect blocks
--   Ext/Dir          crates/fs-ext/src/dir.rs: records and their slack
--   Ext/Walk         crates/fs-ext/src/lib.rs: the walk over directories, inodes and extent nodes
--   Ext/Blocks       the same file: build_bitmap; Ext/Volume is its probe, open and walk
--   Ext/Journal      crates/fs-ext/src/journal.rs
--   Carve/Matcher    crates/reclaim-carve/src/matcher.rs, and HeaderPat of
--                    crates/reclaim-sigs/src/lib.rs
--   Part/Types       crates/reclaim-part/src/lib.rs, the data
--   Part/Reader      the same file: read_bytes and the little-endian numbers
--   Part/Labels      crates/reclaim-part/src/guid.rs, and the tables of mbr.rs and gpt.rs
--   Part/Crc         crates/reclaim-part/src/crc.rs
--   Part/Mbr         crates/reclaim-part/src/mbr.rs: parse and expand
--   Part/Gpt         crates/reclaim-part/src/gpt.rs: headers, their choice, entries
--   Part/Scan        crates/reclaim-part/src/{lib.rs,apm.rs}: scan
--   Ntfs/Record      crates/fs-ntfs/src/record.rs: fix-ups and data runs
--   Prelude          lists, bytes, bits, machine words and loops that these share
--   Tests            the theorems at concrete inputs
--
-- A function that changes a buffer or a result in place takes it and returns it. A machine word is
-- a natural number with its range; saturating operations are written out, and a signed 64-bit
-- number is its two's-complement pattern. A lock or an Arc is the value it guards.
--
-- Bounds: the loops over sectors and table entries run a counted number of rounds. The chain of
-- extended partitions has the code's limit of 256 rounds, the run list that of 100,000, which the
-- code's limit of 65,537 runs keeps out of reach. The search of the segments takes a round per
-- segment and one more, which is shown to be enough. The reads of a virtual image and of a
-- concatenation take a byte at least in each round, so the length of the request is the fuel, and
-- the loop of the imager has a round per chunk. A walk of FAT, exFAT or ISO 9660 recurses on the
-- code's limit of 64 levels, and a chain on the code's cap. The walk of ext takes its fuel as an
-- argument and returns nothing when it runs out; there is always fuel enough, since a directory is
-- read once and the code limits their number. Its trees of blocks recurse on the code's limits of
-- depth, and a scan of the slack on the bytes that are left, of which a round takes four.
--
-- Parameters: the automaton of the signature matcher, the decoders and the compressor of
-- compressed blocks, the digest, the writes that the system refuses, and the cancellation flag as
-- each round sees it. A medium answers the same request in the same way, so a retry can differ by
-- what it leaves in its buffer alone.
--
-- Not modelled: system calls and devices, the read-ahead cache, the container formats, the rest of
-- the file systems, the rest of the carver, the session store and the front ends. Texts for the
-- reader (notes, evidence, identities of sources, labels of ext volumes) are values of small types
-- or left out, and a confidence is a whole number of thousandths. The recoverability score of
-- crates/reclaim-fs-core is floating-point arithmetic that rounding decides, and is left out.
pub mod Prelude
pub mod Block
pub mod Part
pub mod FsCore
pub mod Ntfs
pub mod Fat
pub mod ExFat
pub mod Carve
pub mod Iso
pub mod Ext
pub mod Imaging
pub mod Tests
