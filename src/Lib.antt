-- ===== src/Lib.antt =====
-- The parts of Oak that decide whether a remote party is to be trusted, and how the parties talk.
--
-- Channel (oak_channel/src) carries requests and responses between a client and an enclave. frame.rs
-- is in Channel/Frame: frames with START and END flags, `write`, `read_frame`, `write_frame`, and
-- `bytes_into_frames`, which cuts a message. message.rs is in Channel/Message. `InvocationChannel` of
-- lib.rs is in Channel/Invocation: `read_message` and `write_message`; what the loop of `read_message`
-- does to each frame behind the first is `read_rest`, and the reading of the length prefix is
-- `reserve_for`. client.rs and server.rs are in Channel/Client. The traits `Read`, `Write` and
-- `Channel` are the record `Channel` of Channel/Transport, over any state; `IsStream` is what they
-- promise: reads take the bytes in order, writes are delivered whole. A computation passes the state on
-- and ends with a value, an error or a panic. `read_message` has fuel for its loop; the length of what
-- is on the wire is enough, since each round reads at least nine bytes. The capacity that
-- `reserve_for` asks for is not modelled; a negative one is a panic, in a build with overflow checks by
-- the subtraction and without them by the capacity. Channel/Memory is a channel in memory, for tests.
-- basic_framed.rs, which sends a payload in acknowledged chunks, is in Channel/BasicFramed. The lemmas
-- are in Wire, FrameLaws, MessageLaws and Chunks, the results in RoundTrip, Ends, Rejects, Termination
-- and BasicFramedLaws.
--
-- Attestation (oak_attestation_verification/src) verifies evidence. verifier.rs is in
-- Attestation/Verifier (`verify`, the root signature, the DICE chain, the results for clients),
-- Attestation/Extract and ExtractEvidence (what is read off the evidence), Attestation/Expect (what is
-- expected, from endorsements and reference values) and Attestation/Compare and CompareChain (the
-- comparison of both). A closure or a match of the source that stands on its own is a function of its
-- own: `verify_layer` is the closure of the fold in `verify_dice_chain`, `compare_report` the match of
-- `compare_root_layer_measurement_digests`. util.rs is in Attestation/Digest and Util, claims.rs in
-- Claims, rekor.rs in Rekor, endorsement.rs in Endorsement, amd.rs in Amd. oak_dice/src/cert.rs, for
-- the keys that the verifier reads, is in Cert, and oak_sev_snp_attestation_report/src/lib.rs in
-- Report. The messages of proto/attestation are the records of Values (reference values, endorsements,
-- attachments), Expectations and Evidence; a `oneof` is an `Option` of a data type.
--
-- What other packages do is the record `Externals`: hashes, hex and base64, P-256, P-384 and RSA
-- signatures, the parsers of JSON, CBOR, X.509, regular expressions and protocol buffers. The verifier
-- is a function of it. The only laws that a theorem asks of it are those of `IsHex`. Attestation/Toy
-- instantiates it for the tests, which run the verifier on the chain of Attestation/Sample.
--
-- DigestTally and DigestLaws, CompareLaws, LayerLaws, RootLaws and KindLaws say what it takes for a
-- digest, a value, a layer and a chain to be accepted; PlatformLaws, VerifyLaws and EndorsementLaws do
-- so for reports, certificates and endorsements, and ExpectLaws for expected values. Acceptance puts
-- them together; Tests and LawTests apply the results.
--
-- Kernel models the frame allocator of the restricted kernel,
-- oak_restricted_kernel/src/mm/bitmap_frame_allocator.rs, in Kernel/Frames. A frame is its start
-- address and a range of frames its two ends, and the size of a page is a parameter. The bit arrays of
-- bitvec are the record `BitArray` of Kernel/Bits, with the laws `IsBitArray`; what panics out of
-- bounds does so in the model. Kernel/Words is an instance for the tests. FrameLaws is about single
-- frames, Contiguous about ranges, and Reachable about what the operations make of a new allocator.
-- `largest_available` is in Kernel/Largest, with the closures of its iterator as functions; LargestLaws
-- is about its streaks and LargestAvailable about what it returns.
--
-- Lookup models the lookup data of Oak Functions, oak_functions_service/src. lookup_htbl.rs is in
-- Lookup/Hash, Lookup/Chunk (chunks of bytes and the compressed lengths in them), Lookup/Htbl (the
-- table and its lookups) and Lookup/Insert (the operations that change it, and the iterator).
-- lookup.rs is in Lookup/Manager. A computation there is a `Run`: a value, a panic, or a loop that does
-- not end. The two loops of `lookup` are `probe`, which visits an entry a round; as many rounds as
-- there are entries go round the table once. The loops of `write_len` and `hash` have as many rounds
-- as their number or text is long, which are enough. What `OsRng` gives is an argument. `x & mask` with
-- a mask of low bits is `x % (mask + 1)`, and `|` of numbers with no bits in common is a sum. A chunk
-- is its size and a function from indices to bytes. LenLaws, PairLaws, RoomLaws, HeapLaws and
-- NewDataLaws are about chunks; Slots, Placed and View about open addressing, on slots that hold a key
-- and a value; ProbeLaws, TableLaws and PutLaws connect the two, ReserveLaws, GrowLaws, MoveLaws and
-- GrownLaws are about new and growing tables. Models says which map a table stands for, Refines what
-- inserting does to it, ManagerLaws what the calls of the manager do, and TooLarge is about a boundary.
--
-- The allocator of physical memory, oak_restricted_kernel/src/mm/frame_allocator.rs, which puts two of
-- these together, is in Kernel/Physical; the bit arrays of the large and of the small frames are two
-- parameters. PhysicalLaws is about its small frames.
--
-- Hpke models the encryption of requests and responses, oak_crypto/src. hpke/mod.rs and hpke/aead.rs
-- are in Hpke/Contexts, where the packages hpke and aes_gcm are the record `Suite`, with the laws
-- `IsSuite`; encryptor.rs and encryption_key.rs are in Hpke/Encryptor, and Exchange is about a request
-- and its answer. Ciphers has the cipher of the tests.
--
-- Session models the handshake by which a client and an enclave agree on keys,
-- oak_crypto/src/noise_handshake. crypto_wrapper.rs is in Session/Crypto, where the functions of other
-- packages are the record `Crypto`, with the laws `IsCrypto`; noise.rs is in Session/Noise, client.rs
-- and the functions `respond_nk` and `respond_nn` of mod.rs are in Session/Handshake, and `Nonce` and
-- `Crypter` of mod.rs in Session/Crypter. `encrypt` and `decrypt` change the state also where they fail,
-- so they return it beside their result. NoiseLaws and Agree are about the handshake, CrypterLaws about
-- padding, Talk puts the two together, and Fresh is about nonces.
--
-- An `anyhow::Result` is `Result` of Base/Results: a value, the texts of an error, outermost first, or
-- a panic. Error texts keep their fixed part. Texts are their UTF-8 bytes, bytes and fixed-width
-- integers are natural numbers, times are signed integers.
--
-- Not modelled: the timers and the logging, the variant of the verifier without regular expressions,
-- the generation of certificates and keys in oak_dice, and the rest of the repository: the rest of the
-- kernels, the firmware, the drivers, the rest of Oak Functions, the containers and all launchers and
-- clients.
pub mod Base
pub mod Ciphers
pub mod Channel
pub mod Attestation
pub mod Kernel
pub mod Lookup
pub mod Session
pub mod Hpke
