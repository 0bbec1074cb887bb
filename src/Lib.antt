-- ===== src/Lib.antt =====
-- The distributed document system: a naming server, storage servers and clients, which talk by the
-- messages of protocol/protocol.h. A client asks the naming server for a file; the naming server
-- looks the name up, checks the permission, and either relays the request to the storage server or
-- tells the client where to go.
--
-- Files and sources:
--   Base            helpers: Boolean tests, C arrays and the loops that search them, C strings, lists
--   Protocol        protocol/protocol.h: constants, permission levels, messages
--   NameServer      name/: the naming server
--     Index         name/hash_cache.c and `find_file_slot` of name/catalog.c
--     State         name/name_globals.h: the global arrays as one record, what a handler does
--     Catalog       name/catalog.c; `find_backup_ss`, `count_active_ss` and `replicate_to_backup` of
--                   name/fault_tolerance.c
--     Consistent    the invariant that ties the index to the catalog
--     Files         name/handlers.c: create, read/write/stream, delete, undo, update_metadata, move
--     Access        name/handlers.c: add_access, rem_access
--     Requests      name/handlers.c: request_access, approve_request, deny_request
--     Views         name/handlers.c: view, info; `send_full_metadata` of name/catalog.c
--     Servers       name/name_server.c: registration of clients, heartbeats, the initial state;
--                   `handle_disconnect`, `handle_res_ss_heartbeat`
--     Relays        name/handlers.c: list, check_requests, createfolder, viewfolder, checkpoint,
--                   viewcheckpoint, revert, listcheckpoints
--     Execution     name/handlers.c: exec; `get_file_content_from_ss` of name/catalog.c
--     Registration  name/name_server.c: `handle_ss_register` and what it calls;
--                   `sync_files_to_recovering_ss` of name/fault_tolerance.c
--     Run           `handle_nm_message`, and the servers that its messages lead to
--     Loop          name/name_server.c: the loop of `main`
--   Storage         storage/: the storage server
--     Document      storage/document.c: `parse_file_to_list`, `flush_list_to_file`
--     Edits         storage/document.c: `count_words_in_string`, `apply_session_edits_to_sentence`
--     Locks         storage/locks.c
--     Sessions      storage/handlers.c: client_write, write_update, etirw; the active documents of
--                   storage/document.c and storage/storage_server.c; `handle_client_disconnect`
--     Disk          the files and directories under `g_storage_path`, and the calls of the C library
--                   on them that storage/handlers.c and storage/document.c make
--     Checkpoints   storage/handlers.c: checkpoint, viewcheckpoint, revert, listcheckpoints, undo
--     Stdio         `fscanf`, `fgets` and `fprintf` as storage/metadata.c uses them
--     Metadata      storage/metadata.c: `save_file_metadata`, `load_file_metadata`,
--                   `delete_file_metadata`
--     Statistics    storage/metadata.c: `calculate_and_send_metadata`, `handle_send_file`,
--                   `handle_stream_file`
--     Files         storage/handlers.c: create, delete, add_access, rem_access, createfolder,
--                   checkfolder, move, replicate_file, get_file_content, sync_from_backup, and
--                   `handle_nm_message_ss`
--     Clients       `handle_client_message_ss` of storage/handlers.c: the dispatch of clients' requests
--     Start         storage/metadata.c: `scan_directory_recursive`; storage/storage_server.c:
--                   `register_with_naming_server` and `main` up to its loop
--     Loop          storage/storage_server.c: the loop of `main`
--   Client          client/: the client
--     Input         `fgets`, `strtok` and `atoi` as the client uses them
--     Wire          what the sockets and the terminal give and take; `send`, `recv`, `connect`
--     Transfer      client/handlers.c: requests with a file name, tables, reading and streaming
--     Files         client/client.c: create, read, list, delete, undo, stream, view, info
--     Access        client/client.c: add_access, rem_access, req_access
--     Folders       client/client.c: folders, checkpoints, exec
--     Review        client/client.c: check_requests
--     Fueled        the steps of the loops over what is typed
--     Updates       client/handlers.c: the steps of a write session
--     Writing       `handle_write` of client/client.c, `handle_write_to_ss` of client/handlers.c
--     Registration  client/handlers.c: `register_with_name_server`
--     Main          `main` of client/client.c
--   Dialogue        what one program sends as the other one reads it; READ through all three,
--                   VIEW through the client and the naming server
--   Tests, in each part: concrete states, and the theorems applied to them.
--
-- State is passed explicitly: a handler takes the server and gives `done` with the server and the
-- messages sent, in order, or `undefined` where the C code has undefined behaviour (a write at index
-- -1, a copy past a buffer). A handler has the name of its C function; what it receives from its
-- client are arguments, and so is what it reads from a storage server: `reply` is the type of the
-- header after the read. Sends are taken to succeed, except those of heartbeats, whose success is a
-- parameter. Logging is left out.
--
-- Arrays are functions of the index, and loops over them run to the bounds of the source (1024
-- catalog slots and sockets, 1000 access requests, 100 locks), so no loop needs fuel. The access list
-- of an entry is the list of its first `access_count` entries. Strings are lists of non-NUL bytes;
-- the servers take a field of n bytes to hold a string of at most n - 1; the client sends the first n
-- bytes of what is typed, so that this holds for names that are shorter than their fields. The hash is computed modulo 2 ^ 64, with `char` signed. The counters (heartbeats,
-- request identifiers) are not bounded. Permission levels on the wire are taken to be in the
-- enumeration. A pointer to a sentence is its address; `fresh` gives the addresses that `malloc`
-- returns. The word index of an
-- edit is not negative here (a negative one is refused), and a negative sentence number is the number
-- 0. An update of a sentence that its document has lost has no result here.
--
-- The files under `g_storage_path` are a map from paths to contents, with the set of directories; a
-- file is written where its directory is there and it is no directory itself, disks are never full,
-- and no path overruns its buffer. What `stat` says of times and what `readdir` lists are arguments
-- (`stamp`, `listing`). The metadata file is text; a read of it that fails, or that runs past an
-- array, leaves the program with values that were never written, and the result is `none`.
--
-- The client runs on the bytes that are typed and on what each socket brings before its peer closes
-- it: a stream of headers and bodies. A read that finds a header where the client expects a body, or
-- the other way round, or nothing where the code uses the result, is `undefined`. `connect` takes the
-- next of the connections that are given. The loops over what is typed have fuel for each byte, which
-- is enough since each round reads one. The terminal shows the bytes of `printf` and `write` in their
-- order. A number that `atoi` cannot hold is undefined. `format_time` is `strftime` of `localtime`.
--
-- In the loop of the storage server the sockets that are open are part of the state: `close` and
-- `FD_CLR` of the handlers are what their answer says of the socket (`closes`).
--
-- The storage directory is a tree of names as `readdir` lists them.
--
-- Not modelled: the statistics that a storage server sends after a commit; sockets, `select`, the
-- logs, the shell and the clock, whose results are arguments.
pub mod Base
pub mod Protocol
pub mod NameServer
pub mod Storage
pub mod Client
pub mod Dialogue
