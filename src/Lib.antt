-- ===== src/Lib.antt =====
-- The operator registry controller keeps a registry of relay operators up to date. Jobs in three
-- queues fetch the relays of the network, validate their contacts, verify them against the
-- registry, submit those that can be claimed, and publish statistics of the run.
--
-- Parts, and the files that model them:
--   Validation: src/validation. Validation.RelayInfoService is the transient collection of relays
--     (relay-info.service.ts); Validation.ValidationService fetches, filters and validates
--     (validation.service.ts); Validation.AtorKey is its extractAtorKey; Validation.Dto has the
--     records of dto/ and schemas/.
--   Verification: src/verification/verification.service.ts. Verification.Claimable is
--     getRelaysToAddAsClaimable, Verification.Verify is verifyRelays, Verification.Stats is
--     getValidationStats, Verification.HexMap is the grouping of storeRelayHexMap,
--     Verification.Persist is persistVerification, Verification.Log is logVerification,
--     Verification.MostRecent is getMostRecent. Verification.HardwareService is the interface of
--     the two calls of hardware-verification.service.ts, and Verification.Hardware is that service:
--     SerialProof is verifyRelaySerialProof, Owner the checks of a token's owner, Proof is
--     isHardwareProofValid with the documents of Documents, Certificate is
--     validateDeviceCertificate and Contracts the start. Quiet has hardware_service, which fills
--     the interface.
--   OperatorRegistry: src/operator-registry/operator-registry.service.ts, the client of the
--     registry's process.
--   Util.SendAosMessage: src/util/send-aos-message.ts, the two loops that send with retries.
--   Util.HexString, Util.EcPointCompress: src/util/hex-string.ts, fingerprint.ts, address-evm.ts
--     and ec-point-compress.ts. Util.Config has what the constructors do with a missing value.
--   Vault, Bundling, EvmProvider: src/vault, src/bundling and src/evm-provider, the clients of a
--     vault, of the upload and of the nodes of Ethereum.
--   GeoIp: src/geo-ip/geo-ip.service.ts, the cache of the places of relays.
--   Tasks: src/tasks. Tasks.TasksService is tasks.service.ts, and Tasks.TasksQueue,
--     Tasks.ValidationQueue and Tasks.VerificationQueue are the processors; Tasks.Site is what they
--     ask of the broker.
--   Cluster: src/cluster/cluster.service.ts, which instance acts on one-time events.
--     Cluster.AppThreads is src/cluster/app-threads.service.ts, the processes of an instance.
--   World: what the services share. World.Collection is a collection of the database, with the laws
--     that the services rely on; World.Collection.Memory fills them.
--   Prelude: tests on native numbers, lists, texts as UTF-16 code units, parseInt, and actions with
--     a throw.
--   Examples: concrete services, at which the theorems are applied.
--
-- How the code is translated. An async method is an action on a World: it returns or throws, and
-- writes before a throw stay. A call that leaves the program (database, HTTP, the process of the
-- registry, the upload, bullmq, ethers, h3-js, the shell, the file system, the clock) is a
-- parameter that answers from an outside of any type E, and every answer, an error too, is allowed.
-- Methods interleave only at such calls, so one action after the other is a run of one worker;
-- workers that run at the same time are not modelled. Of the logging only logVerification is
-- modelled.
--
-- Numbers. Counts and weights are natural numbers; a JavaScript fraction is only added, by a
-- parameter. Object keys keep their order of insertion, which differs from JavaScript only for
-- names that are array indices.
--
-- Fuel. The loop over batches has as much fuel as there are fingerprints, which is enough as a
-- batch is not empty; the retry loops run on the retries that are left; the digits of an index and
-- of a token's number have one more than the number.
--
-- Texts. toLowerCase is written out for the text that is searched for the pattern of a key and for
-- the message of a serial proof, where no other capitals than those of ASCII can become digits;
-- elsewhere it is a parameter of which only the case of ASCII is known.
--
-- Not modelled: the sessions of the cluster's instances, the framework's wiring, the provider that
-- reconnects, which is adapted from another project and not used, and the copy of arbundles in
-- src/util.

pub mod Prelude
pub mod Validation
pub mod Verification
pub mod World
pub mod GeoIp
pub mod Vault
pub mod Bundling
pub mod EvmProvider
pub mod Util
pub mod OperatorRegistry
pub mod Tasks
pub mod Cluster
pub mod Examples
