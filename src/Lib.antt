-- ===== src/Lib.antt =====
-- The core of groot, the image manager for containers on btrfs: what creates, deletes and cleans
-- images and the volumes that they stand on.
--
-- A layer of a base image is a volume, named by its chain id. `Create` (groot/creator.go) fetches
-- what is known of the base image, cleans the store if it is told to, and, under the global lock,
-- pulls the missing layers, clones an image from the top one and registers the chain ids that the
-- image depends on. `Clean` (groot/cleaner.go) marks, under the same lock, the volumes that no image
-- depends on by a move to a name with the prefix "gc.", and destroys the marked ones.
--
-- Base: shared names, Go's errors and calls as functions on a world (Base/Effect), its strings and
--   paths (Base/Str, Base/FilePath), its 64-bit integers (Base/Int), and the operating system as a
--   record of calls (Base/Os).
-- Groot: groot/groot.go, its types and interfaces; Groot/Creator, Groot/Clean and Groot/Delete are
--   groot/creator.go, groot/cleaner.go, and groot/deleter.go with groot/statser.go.
-- Gc: store/garbage_collector/gc.go.
-- Puller: base_image_puller/base_image_puller.go; Puller/BaseDirectory is its
--   `ensureBaseDirectoryExists`.
-- Ids: the translations of identities of base_image_puller/unpacker/tar.go and id_mapper.go and the
--   owner of the store in store/manager/manager.go.
-- Config: commands/config/builder.go with the builder calls of commands/create.go.
-- Store: store/store.go; Store/Cloner is store/image_cloner/image_cloner.go, Store/Manager is
--   store/manager/manager.go, Store/Dependencies is store/dependency_manager/dependency_manager.go,
--   Store/Locks is store/locksmith/filesystem.go, and
--   Store/VolumeMeta is store/filesystems/common.go.
-- Groot/Namespacer: groot/store_namespacer.go.
-- Fetcher: fetcher/layer_fetcher/layer_fetcher.go; Fetcher/Source is
--   fetcher/layer_fetcher/source/layer_source.go, and Fetcher/Local is
--   fetcher/tar_fetcher/tar_fetcher.go and fetcher/layer_fetcher/blob_reader.go.
-- Drax: store/filesystems/btrfs/drax, the lister in Drax/Lister.
-- Btrfs: store/filesystems/btrfs/driver.go; Btrfs/Volumes has its volumes, Btrfs/Image its images,
--   Btrfs/Usage the numbers that it reads, and Btrfs/Mounts is store/filesystems/filesystems.go.
-- Unpacker: base_image_puller/unpacker/tar.go, the process it starts in Unpacker/Reexec.
-- Userns: base_image_puller/unpacker/ns_id_mapper_unpacker.go and
--   store/filesystems/namespaced/driver.go.
-- Store/Measurer: store/measurer_linux.go. Groot/Listing: groot/lister.go.
-- CommandLine: commands/helpers.go, commands/idfinder/idfinder.go, commands/generate_metadata.go,
--   parts of commands/create.go, and `CalculatePathSize` of store/filesystems/common.go;
--   CommandLine/Request is what create asks for and tells the user.
-- Groot/Creator/Parts and Btrfs/Volumes/Clean join parts: they show that the cloner, the dependency
--   manager and the locksmith fill what the creator relies on, and that the btrfs driver fills what
--   the garbage collector relies on, over laws of the kernel and of the commands that are run.
-- Tests: a store in memory that fills the interfaces, runs, and each theorem at concrete inputs.
--
-- A call over a world `W` is a function to a result and the world after it (Base/Effect.M), which
-- stays changed when the call fails. Each part takes its collaborators as a record of such calls, and
-- its theorems state what they rely on as a record of laws. Loggers and metrics only report and are
-- left out. Fuel stands in three places: the parents of a base directory (Puller/BaseDirectory) and
-- of an image's path (Drax/Lister), of which a path has fewer than bytes, and the digits of a number
-- (Base/Decimal), of which it has no more than its successor.
-- A goroutine that downloads a layer is run where it is started.
--
-- Not modelled: the wiring of the commands and their exit codes; metrics;
-- and `Marshal` of the driver, which fills a record for encoding/json.
pub mod Base
pub mod Groot
pub mod Puller
pub mod Gc
pub mod Store
pub mod Fetcher
pub mod Drax
pub mod Btrfs
pub mod Unpacker
pub mod Userns
pub mod Ids
pub mod Config
pub mod CommandLine
mod Tests
