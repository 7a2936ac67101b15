-- ===== src/Lib.antt =====
-- safe_disk keeps a directory tree encrypted on disk. Its core in Go, native/sec_fs, opens every file
-- through an encryption context that reads and writes at any position; native/sec_fs/sec_transfer
-- moves whole trees in and out and converts a root in place; native/ffi_sec_fs hands out handles to
-- other languages. This library models the parts below and proves what they do.
--
-- Storage: the file under a context (native/sec_fs/crypto_data/interface.go, IFileContext). It belongs
--   to the operating system, so it is a parameter: the operations in Storage/Types, the documented
--   behaviour in Storage, effects on bytes in Storage/Effects, and a file in memory that keeps the laws
--   in Storage/Memory.
-- Chunk: native/sec_fs/crypto_data/crypt_utils/chunk_processor.go. FillGap is fill_gap,
--   EncryptAndWriteInChunks is encrypt_and_write_in_chunks, EncryptAndWriteAtInChunks is
--   encrypt_and_write_at_in_chunks. The loops take the bytes that are left as fuel, and a round takes
--   one at least, so the fuel is enough. Chunk/Run says what a loop has done when it ends.
-- Cipher: a stream cipher as the contexts use it; Cipher/Keystream is the exclusive or of bytes with a
--   keystream at a position.
-- Context: the methods of the contexts, which native/sec_fs/crypto_data/algorithm_impl/aes_ctr,
--   chacha20, rc4 and aes_xts (context.go) write out four times: new_context, read, write, seek,
--   truncate, sync, close, read_at, write_at and ensure_append_gap. View gives the plain bytes behind a
--   context; the other children prove a method each against it.
-- AesCtr, ChaCha20, Rc4, AesXts: the keystreams of the four files and, in their Methods, the methods of
--   each over its own. AES, ChaCha20 and RC4 themselves are parameters; their laws say how their output
--   depends on counter and position, never that it is secret.
-- SecFile: native/sec_fs/file.go, an open file over a context; a Call is a method with
--   its arguments. One call ends before the next begins, where the code has them share a read lock.
-- Copy: copyFileEntry of native/sec_fs/copy.go, as steps under a list of outcomes; the end of the list
--   is the death of the process.
-- Convert: native/sec_fs/sec_transfer/v3/convert.go with the writes of marker.go and the file operations
--   of durability.go. A conversion and a recovery are programs of operations; exec runs one under a
--   list of outcomes and is cut off where the list ends. The disk is the root, work and backup
--   directories of one operation. Convert/Safe is the invariant, Convert/Recovery the theorems.
-- Marker: the rest of marker.go and of convert.go that decides which marker a recovery takes:
--   validateOpID, validateListedMarker, validateConvertMarker, listMarkers, listConvertMarkers and the
--   choice in recoverConvert.
-- Config: native/config. SharedConfig is the interface, ConfigLaws what its users rely on;
--   Config/Memory is memory_config.go, Config/Prefixed prefixed.go, Config/File file_config.go over a
--   file whose writes follow a list of outcomes. Config/Reload opens what was saved, Config/Kinds keeps
--   the maps in agreement, Config/Sample is a format that has the laws asked of JSON.
-- Password: native/sec_fs/password_verifier.go (Verifier), password_changeable.go (Envelope, Sealed,
--   Open, Change) and password_hint.go (Hint), with getOpenFactories of sec_root_factory.go, over any
--   store with ConfigLaws. Result has the errors, Writer the steps that change a store, Agree what they
--   leave alone, Same what depends on the answers of a store only. A Fate says how the commit of a staged
--   configuration ends. Pbkdf2 is the deriver of native/sec_fs/crypto_hkdf/algorithm_impl/pbkdf2/factory.go,
--   and Pbkdf2/Laws shows that it is one as DeriverLaws asks; the derivers of Argon2id, scrypt and HKDF
--   are not modelled. Change/Reopened opens what a FileConfig has saved.
-- WebDav: the authentication of native/sec_fs/sec_webdav/auth.go. Credentials is Bearer and Basic,
--   Options normalizeOpenOptions; the rest is Digest: Fields is the header, with the
--   length of the value as fuel; Total shows that it is enough. Nonce has newNonce and validNonce, with
--   times in nanoseconds and the wrap of time.Unix; Digest has verify, Replay what it lets in.
-- Server: native/sec_fs/sec_webdav/server.go and filesystem.go, with the credentials of auth.go. Types
--   has the data, Paths cleanRelativePath, joinSecurePath and resolve, Auth the credentials, Records the
--   persistent store, Listeners the listeners, Open OpenWithOptions and restorePersistent, Sessions the
--   other methods, Handle the requests, Files secureFileSystem. Calls takes every section that holds the
--   lock as a step, so a list of calls is an interleaving; Listening is the invariant. Mounts
--   adds the mounts of the system, which Mount and Unmount wait for without the lock.
-- GoMap, IdStore, Registry: Go maps as lists of entries, native/ffi_sec_fs/idstore.go, and
--   native/sec_fs/internal/utils/registry.go with name_registry.go.
-- Base: shared names, lists over native numbers, strings, bits of the exclusive or, and int64.
--
-- Numbers: positions and sizes are natural numbers below 2^63; where the code adds a signed offset
-- (Seek) the sum wraps as int64 does. The counter of ChaCha20 is cut to 32 bits, that of AES-CTR to 64.
-- A file of an algorithm is below the limit of its CipherLaws: 2^38 for ChaCha20, 2^63 else.
--
-- Not modelled: the transfers of single files, the secure root with its paths and names, the buffered
-- adapter for random access, which no root uses, the derivers of keys but PBKDF2, the certificate of
-- the WebDAV server, the commands that mount a session, the handler behind a request, and the command
-- line. A method is taken to hold its lock from start to end, so locks appear only where one lets go of it
-- (Server). A conversion is modelled for one operation: Marker says which markers are let through to
-- it, and its copy and comparison of trees are single operations.
mod Base
pub mod Storage
pub mod Cipher
pub mod Chunk
pub mod Context
pub mod AesCtr
pub mod AesXts
pub mod ChaCha20
pub mod Rc4
pub mod Convert
pub mod GoMap
pub mod Registry
pub mod Marker
pub mod SecFile
pub mod Copy
pub mod Config
pub mod WebDav
pub mod Password
pub mod IdStore
pub mod Server
