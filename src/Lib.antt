-- ===== src/Lib.antt =====
-- BSFS is a steganographic file system. A disk is divided into 256 cover files; a password opens a
-- user level, whose bytes are exclusive-or combinations of the covers that the password's read
-- keys select, and are changed by adding to the covers that its write keys select. In a level lie
-- a table of files (the BFT), a bitmap of clusters, and the clusters, chained to files.
--
-- The modules follow the program's files.
-- - Base: shared tests and results, memory, C strings, and the laws of `^` and `&`. A pointer into
--   a buffer is a memory, a byte for each offset, and an offset; reads out of range are not
--   faults, so statements name the range that is read or written.
-- - BitUtil (src/bit_util.c): read_be32, write_be32, read_be64, write_be64, get_bit, set_bit,
--   round_to_bytes.
-- - Vector (src/vector.c): the scalar product, linear combinations in place, random vectors.
-- - Matrix (src/matrix.c): square matrices of bits in a buffer. Matrix/View says which matrix a
--   buffer holds; Matrix/Rows has sums and swaps of rows, Matrix/Transpose and Matrix/Multiply these
--   operations, Matrix/Span and Matrix/Eliminate the elimination's steps, Matrix/Inverse and
--   Matrix/Kernel its two outcomes, Matrix/Random the random matrix, Matrix/Random/Units the one that
--   answers of zeros and unit vectors make.
-- - Cipher (src/enc.h): the interface that the other parts call, with its laws. Enc (src/enc.c): the
--   functions that fill it, over a parameter for OpenSSL. Enc/Steps has the calls that an encryption
--   makes, Enc/Laws and Enc/Auth what the functions rely on of OpenSSL (CbcLaws, GcmLaws,
--   Pbkdf2Laws) and the laws that follow.
-- - Disk (src/disk.c): the size and the contents.
-- - Stego (src/stego.c): read_cover_file_delta and write_cover_file_delta for one level,
--   merged_cover_file_op for the four levels of a password, stego_read_level and
--   stego_write_level for whole ranges. Stego/Sum has the sums, Stego/Covers one level,
--   Stego/Merge the loop over levels, Stego/Written and Stego/Levels the theorems on reads and
--   writes. Stego/Keys has stego_gen_user_keys, Stego/Dual the keys that it gives.
-- - Cluster (src/cluster.c): the layout (Cluster/Layout), the bitmap (Cluster/Bitmap), and reads
--   and writes of clusters (Cluster/Storage).
-- - Bft (src/bft.c): entries (Bft/Entries) and searches (Bft/Search, Bft/Found).
-- - Keytab (src/keytab.c): the entries (Keytab/Entry), and lookups after stores, over the
--   interfaces (Keytab/Lookup) and over Enc (Keytab/Secured).
-- - Oft (src/oft.c): the hash table of open files; Oft/Chains has the chains, Oft/Rehash the larger
--   table, Oft/Map and Oft/Release the table as a map with reference counts.
-- - Bsfs (src/bsfs.c): a file as a chain of clusters, reads of it (Bsfs/Reading), its
--   clusters and their allocation (Bsfs/Chain), and paths (Bsfs/Path). Bsfs/Metadata has the
--   operations on entries of a table, Bsfs/Attributes and Bsfs/Exchange what they change;
--   Bsfs/Levels the table of open levels (src/bsfs_priv.h), Bsfs/Files and Bsfs/Names the operations
--   on paths and open files; Bsfs/Opened and Bsfs/Distinct the search for levels, Bsfs/Named, Bsfs/Waiting,
--   Bsfs/Renamed and Bsfs/Made what the operations do. An operation on a level takes the level's
--   metadata lock and gives it back as the code does; where it would wait for ever it has no result.
--   In a sequential run the lock is then held by the caller, for which POSIX allows the answer
--   EDEADLK: whether it is given is a parameter (System.edeadlk), and the code does not look at it.
--   Bsfs/Extend and Bsfs/Writing have the writes, Bsfs/Overwrite what a write does to a chain,
--   Bsfs/Sought the search for its place, and Bsfs/Written reads after it.
-- - Tests: runs on small inputs, and the theorems at inputs that meet their hypotheses.
--
-- `size_t` has 64 bits and `uint32_t` 32; wrapping is written out where it can occur. Loops with
-- a counter recur on the rounds that are left. The `while` loop of merged_cover_file_op runs on
-- fuel, as many rounds as there are bytes, which is enough since a round processes a byte at
-- least: the theorems on its result have no hypothesis on fuel. So it is with the loops of
-- src/bsfs.c: find_cluster runs on the offset, and do_rw_op on the size; get_cluster_chain has no
-- bound of its own, since a chain may lead back into itself, so its fuel is an argument and its
-- theorem asks for a round more than the chain has clusters; bsfs_unlink, bsfs_rename and
-- bsfs_ftruncate pass it on. The counter of
-- fs_alloc_cluster has 32 bits; a round for each bit and one more are enough wherever the search
-- ends, and `none` stands for a search without end, which takes 2^32 clusters a level, a disk of
-- 512 TB; the functions that call it then have no result either. The loop of gen_nonsing_dim that passes selected rows runs on as
-- many rounds as there are rows, since the bits behind them are clear. The answers of RAND_bytes
-- are a list; a function that asks for more than it has answers `none`. Failures of malloc are an
-- argument (Host), and so are the cipher and the key derivation (Cipher), whose laws (CipherLaws)
-- say that decryption undoes encryption under the same key and vector and reads no further than
-- its size.
--
-- Not modelled: threads, the locks of files, disks and tables, which are free in a sequential
-- run, what the system does for src/disk.c, the release of memory, FUSE and the command line.
pub mod Base
pub mod BitUtil
pub mod Vector
pub mod Matrix
pub mod Cipher
pub mod Enc
pub mod Disk
pub mod Stego
pub mod Cluster
pub mod Bft
pub mod Keytab
pub mod Oft
pub mod Bsfs
mod Tests
