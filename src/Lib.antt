-- ===== src/Lib.antt =====
-- Verification library for the Git LFS client: what it exchanges with Git over pipes, the pointer
-- files that it keeps in a repository, the configuration that it reads, the queue of its transfers,
-- and the errors that its parts hand to each other.
--
-- The parts, and the files that model them (paths from the repository's root):
--   Git/Pktline         git/pkt_line.go. `Input` is the `bufio.Reader`: the bytes still to come and the
--                       error behind them. `Sink` is the `bufio.Writer`, a parameter of every write.
--                       `read_packet` is readPacket, `write_packet` writePacket, and so on.
--   Git/PktlineReader   git/pkt_line_reader.go. `read cap r` is one call of Read with len(p) = cap.
--   Git/PktlineWriter   git/pkt_line_writer.go. `write`, `flush` and `flush_buffer` are Write, Flush
--                       and flush.
--   Git/FilterProcess   git/filter_process_scanner.go. `init`, `negotiate_capabilities`, `scan` and
--                       `write_status` take and give the state of both directions of the pipe.
--   Errors              errors/types.go. A `Fault` is an error that is not nil; `is_error k` is the
--                       body that the Is...Error functions share, for the method `k`.
--   Lfs/Pointer         lfs/pointer.go. `encoded` is Encoded; Lfs/Pointer/Decode has the parser, from
--                       `decode_pointer` (DecodePointer) down to `parse_oid` and `decode_line`.
--   Lfs/Batcher         lfs/batcher.go. `accept_input` is acceptInput over the sequence of what its select
--                       receives; `ready` is what Next takes.
--   Lfs/TransferQueue   lfs/transfer_queue.go. Each round of a goroutine is a function on the state
--                       (`handle_transfer_result`, `handle_answers`, `collect_retry`), and `Step` lets
--                       them run in any order.
--   Lfs/Scanner         lfs/scanner.go. Lfs/Scanner/Log has parseLogOutputToPointers over the lines that a
--                       `bufio.Scanner` gives, with its regular expressions as functions; Lfs/Scanner/Refs
--                       has ScanRefsToChan over the output of git, with scanBlobOID of
--                       lfs/gitscanner_catfilebatchcheck.go, Lfs/Scanner/CatFile has scanPointer of
--                       lfs/gitscanner_catfilebatch.go, and Lfs/Scanner/Tree has parseLsTree.
--   Transfer/Manifest   transfer/manifest.go. `register` is RegisterNewTransferAdapterFunc.
--   Config/GitFetcher   config/git_fetcher.go. `read_git_config` is ReadGitConfig; `get`, `set` and
--                       `del` are the methods of GitFetcher.
--   Config/Environment  config/environment.go.
--   Config/Aliases      config/config.go, urlAliases and ReplaceUrlAlias.
--   Config/Extensions   config/extension.go, SortExtensions over the entries of the map in any order.
--   Config/Endpoint     config/endpoint.go. `net/url` is the parameter `UrlParser` of Common/Urls.
--   Config/Configuration  config/config.go. `endpoint`, `access`, `set_access` and the others are the methods;
--                       what SetEndpointAccess has git write is kept as a list.
--   Git/Remotes         git/git.go, the remotes.
--   Git/Refs            git/git.go: `parse_ref_to_type_and_name`, `resolve_ref`, `local_refs` and
--                       `recent_branches` over what git prints.
--   Git/Version         git/git.go, IsVersionAtLeast.
--   Lfs/Hook            lfs/hook.go. `Disk` is an interface to the file system.
--   Lfs/Attribute       lfs/attribute.go. `GitConfigTool` is an interface to `git config`.
--   Lfs/Setup           lfs/setup.go, the hook and the filters that are installed.
--   Transfer/AdapterBase  transfer/adapterbase.go, and IsExpired of api/object.go. `Step` is one step of one of
--                       the workers, of Add or of End; `Work` is a round of the loop over the jobs,
--                       and `receives` the reader of the results, whose channel holds 20.
--   Commands/Prune      commands/command_prune.go. `tasks` are the goroutines that retain objects, each
--                       with what it sends on its channels; Commands/Prune/Run has `prune` and
--                       `prune_command` (pruneCommand) over the order in which it all arrives.
--   Commands/Fetch      commands/command_fetch.go, from readyAndMissingPointers to what
--                       fetchAndReportToChan sends.
--   Commands/Uploader   commands/uploader.go. `prepare_upload` is prepareUpload and `upload` is upload; the
--                       set of uploaded oids is passed on as the context has it.
--   Progress            progress/meter.go, the counters.
--   LocalStorage        localstorage/localstorage.go and localstorage/scan.go. `FileSystem` is an interface
--                       to the operating system.
--   Tools/StringSet     tools/stringset.go, as an interface of operations with their laws.
--   Tools/Math          tools/math.go.
--   Common              numbers, lists, byte strings and maps, with the functions of Go's strings,
--                       bytes, bufio and strconv that the code calls, as they are documented.
--   Tests               runs on small inputs.
--
-- The filter process reads its requests with the packet reader over the same stream, and answers with
-- the packet writer; both stand on Git/Pktline. An upload keeps the counters of the meter in step with its queue. The transfer queue asks Errors whether to try again,
-- and the pointer parser classifies its errors by Errors. A prune stands on the local storage, on sets of
-- strings and on what the repository answers, a parameter.
--
-- Strings and byte slices are lists of numbers; machine integers are natural numbers, and the parser
-- of `strconv` keeps the bounds of an int64. Loops run on fuel: one more than the bytes of the
-- stream or of the buffer, of which each round takes one at least (two rounds more in Write, which may
-- start with a full buffer). A round of scanPointer takes a newline, and one of its caller a pointer. Running out of fuel is the result `stuck`, which is shown never to occur.
--
-- Not modelled, since it is input and output or calls of other programs: the HTTP side (api but for the expiry of
-- objects, httputil, auth, the transfers of the adapters), the commands but for prune, uploads and part of fetch, calls of
-- the git command, the file system, trace output, stack traces and the context maps of errors, the output of the progress
-- meter; of the adapters a worker whose start fails, and of the transfer queue the fallback to the API without batches.
pub mod Common
pub mod Tools
pub mod Git
pub mod Config
pub mod Errors
pub mod Lfs
pub mod LocalStorage
pub mod Transfer
pub mod Commands
pub mod Progress
pub mod Tests
