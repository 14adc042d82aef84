-- ===== src/Lib.antt =====
-- The control plane of LISPmob's daemon lispd, on its data: the addresses of the LISP protocol and their
-- form on the wire, the lists that the daemon keeps its objects in, the prefixes, the packet buffers that
-- messages are built in, the mappings with the lists of their locators, the database that finds a mapping
-- by its EID, the policy that balances flows over the locators of a mapping, and the timers and nonces of
-- the requests under way, the messages with their authentication, and the Map-Server, which takes registrations and
-- answers requests. A packet is sent like this: the database finds the mapping of the longest prefix
-- (`mdb_lookup_entry`), the policy has computed vectors of locators for the source and the destination
-- mapping (`balancing_vectors_calculate`, whenever a mapping changes), the hash of the packet chooses a
-- position in each, and the addresses of the two locators become the forwarding entry
-- (`fb_get_fw_entry`). The locators come from the generic lists of the mapping, which
-- `mapping_add_locator` and its companions keep; their addresses are compared and searched by the address
-- library, and the packet's headers are pushed on a buffer. A request carries a nonce, which
-- `htable_nonces_insert` notes for the list of its timer, and the answer is known by
-- `htable_nonces_lookup`; the timer runs on the wheel (`lmtimer_start`, `handle_timers`).
--
-- Files, each with its children:
-- Prelude: Boolean tests on numbers, sequences with numbers as indices, and `Run`, a run of C code
--   that returns a value or meets undefined behaviour. A theorem that a run `Returns` says that
--   there is none and that the run ends.
-- Address: lispd/liblisp/lisp_address.c, lisp_ip.c and the comparison and address lookup of
--   lisp_lcaf.c. An address is a tree; `lisp_addr_cmp` and its helpers keep their names.
-- Locator: lispd/liblisp/lisp_locator.c and lisp_locator.h. In a list a locator is its pointer with its
--   record.
-- FlowBalancing: lispd/fwd_policies/flow_balancing. Address is fb_lisp_addr_func.c; Hcf, Select,
--   Fill, Calculate and Forward are the functions of flow_balancing.c in the order of their calls.
--   A row of the array `locators[3][33]` is what stands before its terminating NULL, and a write
--   behind position 32 is a fault. A vector is a list of positions, `none` if never written.
-- Lbuf: lispd/lib/lbuf.c and lbuf.h. The memory is a list of bytes, `data` a distance from `base`;
--   sizes are 32 bits and header offsets 16 bits wide, with their wrap-around. Whole is the buffer after a
--   put or a push, Contents the bytes in use, Offsets the headers.
-- Glist: lispd/lib/generic_list.c, with the comparison and the pointer test as arguments.
-- Prefixes: lispd/lib/prefixes.c. The bitwise `&` goes bit by bit over 32 bits, by recursion on the
--   width.
-- Wire: the writing and parsing of addresses of lispd/liblisp/lisp_address.c, lisp_ip.c and
--   lisp_lcaf.c. Parse has the parsers, with the names of the source for those of an LCAF type; the
--   recursion from an address to its parts is `parse_addr`, `parse_lcaf` and `parse_type`, the loops
--   are `parse_addrs`, `parse_elp` and `parse_rle`.
-- Timers: lispd/lib/timers.c. Expire, Waits and Fires follow one timer through the ticks; Invariant has the
--   step relation of the wheel; Endless is the loop of `handle_timers` on a timer that comes back.
-- Nonces: lispd/lib/nonces_table.c, with its lists in Lists and the table against the map of Spec in
--   Refine.
-- TimerTables: lispd/lib/pointers_table.c and timers_utils.c, on Timers and Nonces. Awaited has the
--   nonces that timers wait for; Stopped is about an object whose timers are stopped.
-- Checksum: lispd/lib/cksum.c. Sums has the sum of the RFCs, whose carry is added at once, and what
--   stands for a sum whose carries are left for later; Rfc compares the two.
-- MappingDb: lispd/lib/mapping_db.c. Entries has the operations of the database, above the helpers on
--   the trees; Tree and Match compare the part for IP EIDs with the map of Spec.
-- Mapping: lispd/liblisp/lisp_mapping.c. The place of a list of locators stands for the pointer to
--   it. Compare has the comparison and cloning of mappings and the renewal of their locators.
-- Messages: lispd/liblisp/liblisp.c, lisp_messages.c, lisp_message_fields.c and lispd/lib/hmac.c. A message
--   under construction is the list of its bytes with the room behind them; a pointer into it is a place.
--   Records puts records into messages, Parse reads them, Auth has the authentication; Written and
--   Locators carry the round trips of RoundTrip and MapRequest, Signed has the parts of an
--   authenticated message, Register its check, Nat a Map-Register behind a NAT.
-- MapCache: lispd/control/lisp_map_cache.c and lisp_local_db.c, lispd/lib/map_cache_entry.c and
--   map_local_entry.c: the databases of the learned and of the own mappings.
-- MapServer: lispd/control/lisp_ms.c and lispd/lib/lisp_site.h. The device holds its databases, whose
--   entries are places in the lists of its sites and registrations. Registration is
--   `ms_recv_map_register`, with the loop over its records as a function of what it keeps; the request
--   handler is in MapServer itself. Authentic and Undefined are about what they do to the device.
--
-- Fuel: the loop of `highest_common_factor` has one more round than its divisor, which falls in every
-- round. `lisp_addr_parse` has more than twice as much as there are bytes, because each step down to a
-- part of an address reads a byte. The loop of `handle_timers` has one more than the rotations and timers
-- of the spoke; a round uses up one of them, unless a callback starts a timer on that very spoke. The
-- carries of a 32-bit sum have three rounds, since two leave none. Without fuel each of them is a fault.
-- All other loops go down a list, an address or a number of positions.
--
-- Parameters: the callbacks of the timers, as lists of calls of the wheel. The hash of a packet, which
-- lispd takes from a copy of lookup3, is any number. The hash map khash and the Patricia tree, copies too,
-- are records of their operations with the laws of a map, and the tree with its longest match. The HMAC of
-- mbedtls is a function of key and bytes that may fail. The allocators are taken to succeed.
--
-- Bounds: the buffer of a message has 4096 bytes. A put past its room is a fault, because the memory moves
-- and the pointers that the callers hold into it dangle.
--
-- Not modelled: input and output, sockets, the configuration, logging, freeing of whole objects, the
-- tuple table, the walks over a database, the tunnel router, the headers that packets and control messages
-- are encapsulated in, which are next, the conversions of addresses to and from text, and what runs after
-- an AFI list was written, whose length goes behind its bytes.
pub mod Prelude
pub mod Address
pub mod Locator
pub mod FlowBalancing
pub mod Lbuf
pub mod Glist
pub mod Prefixes
pub mod Mapping
pub mod Wire
pub mod Timers
pub mod Nonces
pub mod Checksum
pub mod MapServer
pub mod MappingDb
pub mod Messages
pub mod TimerTables
pub mod MapCache
