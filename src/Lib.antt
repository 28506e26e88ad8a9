-- ===== src/Lib.antt =====
-- immich-bridge serves the photo library of an Immich server as a WebDAV mount. A request passes
-- Basic authentication, whose password is an Immich API key; the WebDAV provider turns its path
-- into a resource, a collection or a file, and asks a filesystem service, which asks Immich over
-- HTTP, for what the resource holds. An in-memory or Redis cache keeps identities, failure counters
-- and upload receipts; a cache on disk keeps byte ranges of originals. An HTTP interface for admins
-- and share guests works with signed tokens that carry grants.
--
-- The files, and the code that each is about:
--   Authz            src/immich_bridge/authz.py, capabilities and grants
--   Authz.Tokens     the same file, sign_grants and verify_grants_token; Base64 is its base64 use
--   Cache            src/immich_bridge/cache.py, InMemoryCache: a dictionary of entries, one function
--                    for each method. The lock is held for whole methods, so a method is one step
--   ImmichAuth       src/immich_bridge/immich_auth.py, validate_immich_api_key
--   WebdavAuth       src/immich_bridge/webdav_auth.py, ImmichBasicAuthenticator over Cache
--   BlobCache        src/immich_bridge/blob_cache.py: get, set and the pruning. BlobDisk is the directory,
--                    four dictionaries of files and which of them cannot be unlinked, and the steps
--                    on it; set has a fault as an argument, the step of its try that fails with an
--                    OSError, if one does
--   FsModel          src/immich_bridge/fs_model.py, date folders and hour folders
--   Segment, Albums  the same file, safe_segment and album_entries
--   Assets           the same file: the times that Immich is asked about, when an asset was taken,
--                    the file names of assets and asset_entries
--   Service          src/immich_bridge/fs_service.py, ImmichFilesystem: the client it asks and the loop
--                    over pages. Filters is the filters of a search and _freeze, Sets is sorted(set(..)),
--                    Memo is _memoized with the loaders, Buckets and Folders are the methods, and
--                    Operations gives them the names by which Provider knows them; Ends, Whole, Settled,
--                    Refines, Days, Years and Opens have the theorems
--   Provider         src/immich_bridge/webdav_provider.py: Settings is the stored settings and the upload
--                    receipts, Views the saved views, Names the names that need no collection,
--                    Resolve the way from a path to a resource, Folders and Members what collections
--                    list and open, Requests what is asked of Immich, Staging the file of an upload,
--                    Writes what requests change, ByteRanges the Range header, Files what a file
--                    answers, its content over Client.Originals included; Kinds is what the
--                    three sorts of date folder differ in
--   Client           src/immich_bridge/immich_client.py: the requests with their retries and the cache of
--                    answers; Search is the searches, Originals the opening of files through BlobCache,
--                    Streams the two sorts of open file, Laws what the cache serves
--   Share            src/immich_bridge/share_auth.py: the reading of share URLs; Match is whether a link
--                    belongs to a library, Identity what Immich says of it
--   Paths, Text      Python's text functions on paths and numbers
--   Json, Dict       JSON values and dictionaries; Prelude is what all files share
--
-- How state is modelled: an operation takes the state and gives it back with its result, and takes the
-- clock as an argument, once for each time that the code reads it. Exceptions are values: Validation
-- of ImmichAuth, Result of Provider with the HTTP status, Option where the code returns None. The
-- provider's requests to Immich that change something are kept in a list, newest first, so that
-- theorems can say what was asked. The filesystem service keeps its memo and what it asked of the client
-- in a Session, and the client's answers may depend on what was asked before: the library may change
-- between two requests. Provider sees the service as one record of answers for each request; Refines
-- is why it may, as far as the answers that are found go.
--
-- Taken from outside, as arguments: urllib.parse, SHA-256, SHA-1, HMAC and the JSON codec, Unicode
-- case folding and the other case functions of str, mimetypes, Python's readers of ISO dates, the
-- HTTP answers of Immich, and the answers of the admin store; the filesystem service takes the
-- client's answers as a record of functions.
-- WsgiDAV is not modelled; handle_delete gives its "not handled" for the classes that keep the
-- default.
--
-- Bounds: times and sizes are natural numbers, in ticks and bytes. White space and digits are those
-- of ASCII. Python's integers are unbounded and need no width. Two loops run on fuel. The decimal
-- printing of Provider.Views has the number plus one, more than it has digits. The loop of
-- search_all_assets has the rounds of the model's ImmichFilesystem; the code has no such limit, and
-- Ends says when more rounds than the page limit are enough. All else is structural recursion.
--
-- Not modelled: the client's uploads, Redis, the admin store and the HTTP routes, the time stamps of
-- files, and the contents of the README, diagnostics and macOS metadata files. Logging is left out
-- throughout.
pub mod Albums
pub mod Assets
pub mod Authz
pub mod Base64
pub mod BlobCache
pub mod BlobDisk
pub mod Cache
pub mod Client
pub mod Dict
pub mod FsModel
pub mod ImmichAuth
pub mod Json
pub mod Paths
pub mod Prelude
pub mod Provider
pub mod Segment
pub mod Service
pub mod Share
pub mod Text
pub mod WebdavAuth
