-- ===== src/Lib.antt =====
-- nanodistro: a verification of the core of the program.
--
-- The program writes system images to a board and configures its network. The parts that stand
-- here, with their files:
-- - Base: lists, options, Boolean tests, words and exceptions that all parts share.
-- - Netblk: block devices over a network image (src/netblk). Netblk.Lru is the recency list of
--   block_cache, Netblk.Align the rounding of a byte range to sectors (size_to_sector of
--   src/netblk/cache.cpp, and the macros of include/std-utils.h), Netblk.Backend the interface
--   netblk_backend with do_read and do_write (src/netblk/netblk.cpp, src/netblk/internal.h),
--   Netblk.Backend.Mem the backend of src/netblk/mem.cpp, and Netblk.Cache the class block_cache
--   (src/netblk/cache.cpp, src/netblk/cache_lock.cpp). The cache asks its backend through do_read
--   and marks sectors in its bitmap and its recency list. Netblk.Readcache is the
--   backend over a cache (src/netblk/cache_backend.cpp). Netblk.Nbd is netblk_device_nbd
--   (src/netblk/nbd.cpp): a reader and jobs whose steps interleave, over any backend.
-- - EventLoop: event_loop_impl (src/lib/event-loop.cpp, include/event-loop.h). The handlers are
--   shared objects in a heap; what they and epoll_ctl do is a parameter.
-- - Text: the string helpers (src/lib/strings.cpp). Text.Number is what std::stoi, std::stoull and
--   std::format do to decimal numbers, on which the other parts rely.
-- - Clock: timestamp (src/lib/time.cpp, include/time-utils.h), seconds and nanoseconds.
-- - Url: the class url (include/url.h, src/lib/url). Url holds the fields, the percent code and the
--   setters, Url.Generate prints (generate.cpp), Url.Parse reads (parse.cpp), Url.Resolve has go_back
--   and relative (url.cpp), Url.Compare the operators (inline.cpp). Url.Plain, Url.Tail, Url.Head and
--   Url.Printed are the lemmas of the round trip.
-- - Writer: the command helper write. Writer is copy_context (src/helper/copy.cpp, internal.h),
--   Writer.Faithful and Writer.Prompt what its theorems ask of the kernel, Writer.Options the
--   options and the sizes, Writer.Main the command (src/helper/cmd_write.cpp). The calls of the
--   kernel are the record Kernel, the files of the system the record System.
-- - Status: the lines between an installer and the screen (src/lib/status.cpp,
--   src/ui/progress/status.cpp and set_progress of src/ui/progress/draw.cpp).
-- - Worker: the worker pool (src/lib/worker.cpp) as a relation of steps: a call of add, a section of
--   a thread under the lock or a job, the request to stop.
-- - Network: addresses, masks, networks and routes of IPv4 (src/network/ipv4.cpp, ipv4_mask.cpp,
--   ipv4_cidr.cpp and ipv4_route.cpp, include/net-utils.h), and in Network.Addresses their texts;
--   Network.Mac is src/network/mac.cpp, Network.Ipv6 is src/network/ipv6.cpp, and
--   Network.Ipv6.Networks src/network/ipv6_cidr.cpp. The byte order of the machine is an argument,
--   since an address is a union of its bytes and of words.
-- - Json: paths into documents (src/lib/json.cpp) and their escapes (src/lib/escape.cpp). The JSON
--   library is the record Documents.
-- - Readable: sizes with their units (src/lib/readable.cpp).
-- - Files: the loops around read, write and poll (src/lib/filesystem.cpp); the answers of the kernel
--   are a list, one for each call.
-- - Paths: the parts of a path of a file (src/lib/paths.cpp).
--
-- State is passed explicitly. An action on the cache or on the event loop returns a result or an
-- exception, together with the state it leaves. A backend, the handlers of the event loop, epoll_ctl
-- and close are parameters; what a theorem needs of them is a named hypothesis (Serves, IsReliable,
-- IsQuiet, IsFaithful, IsPrompt), and the tests instantiate each with a concrete function.
--
-- Bounds and fuel: sizes are 64-bit words, and where the source can wrap round, % 2 ^ 64 is
-- written out; error counts and totals of events are 32-bit words. The theorems on the cache are
-- about sector sizes that are powers of two, since align_up rounds with a mask; the constructor
-- accepts others. The loop of force_cache_sector_ runs on the number of sectors as fuel, since
-- each round reads at least one; its theorem shows that the fuel never runs out. str_split has one
-- more round than the string has bytes, which is enough for a separator that is not empty;
-- remove_all_loop has a round for each byte. The search for a free job identifier takes its fuel
-- as an argument. The copy loop of the writer may be interrupted without end, so that its fuel is
-- an argument, too; where no call is interrupted, one round more than there are bytes to write is
-- enough. Offsets and seconds are numbers without bounds, since the source leaves their overflow
-- undefined or does not guard it; the sizes of the options are words of 64 bits. The two scans of
-- the units of a size are recursion on the list of units, and the zeros behind a fraction are
-- taken away in as many rounds as its value. The eight values of an IPv6 address are below 65536.
--
-- Of the network block device, a socket takes all that is written, a call of the backend is one step,
-- and what read and full_read give is an argument of the step of the reader.
--
-- Not modelled: floating point (double in timestamp), the formats of dates, the state that a url
-- or a mask is left in by an exception, the thread of the writer that reports, the mutexes and the
-- threads outside of the worker pool and the network block device, the look-up in YAML documents
-- (whose assignment writes into the document), the merge of documents, socket addresses, memory
-- mapping failures other than as a flag, calls of the event loop from inside a handler, the loop
-- around epoll_wait, and the parts of the program that are input and output (user interface, display,
-- input devices, network services, processes).
pub mod Base
pub mod Netblk
pub mod EventLoop
pub mod Text
pub mod Network
pub mod Json
pub mod Readable
pub mod Paths
pub mod Files
pub mod Worker
pub mod Clock
pub mod Url
pub mod Writer
pub mod Status
