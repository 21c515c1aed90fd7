-- ===== src/Lib.antt =====
-- rustwall: a network firewall for seL4 (README.md), between an Ethernet driver and one client. A
-- frame is copied out of a buffer shared with C, filtered by MAC address, EtherType and IP
-- protocol, its UDP datagrams are reassembled and shown to an external packet filter, and what
-- passes is queued, fragmented again where it is too large, and handed over one frame at a time.
--
-- The firewall itself, src/constants.rs, src/utils.rs and src/lib.rs:
--   Constants         src/constants.rs
--   State             the statics of src/utils.rs, the shared buffers, the two mutexes, the counters
--   Buffer            sel4_buffer_insert, sel4_buffer_fetch, dispatch_data_to_ethdriver, the iterator
--                     EthdriverRxStatus, get_device_mac, fetch_client_data, copy_data_to_client_buf;
--                     Buffer/RoundTrip is about the last two, Buffer/Mutexes about the mutexes,
--                     Buffer/Exchange about the rest of the state, Buffer/Given about frames that fit
--   Fragment          fragment_large_udp_packet, the pieces that it should make (Plan), its loop
--                     (Loop), both together (Tiling), the sizes of the packets (Sizes), and that its
--                     loop has enough rounds (Keeps); small datagrams (Small) and the last
--                     identifier (Exhausted)
--   Reassembly        process_ipv4_fragment: its slots (Slots), that it is not stuck (Live), fragments
--                     in their order (SetLaws, InOrder, Feed), and those of Fragment (RoundTrip)
--   Udp               process_udp, what its datagrams are worth (Verdict, Shipped), and what it
--                     makes of an address (Addresses)
--   Ipv4              shave_crc_from_ipv4 (Checksum) and process_ipv4, with what it leaves alone
--                     (Aside, Untouched), where its packet comes from (Origin), its steps (Steps),
--                     the frames it returns (Frames, Handled), and a packet that is no fragment
--                     (Whole, Datagram); a fragment (Fragmented), frames one after the other (Offer)
--                     and the fragments of a datagram (Reassembled)
--   Ethernet          process_ethernet, with its queue (Growth, Queue), which frames get there
--                     (Verdict), how long they are (Short), which pass as they came (Passing) and what
--                     becomes of a small datagram (Datagram)
--   Client            client_tx, client_rx, ethdriver_has_data_callback, client_mac of src/lib.rs:
--                     their results (Results), the frames in their order (Delivery), the loop of
--                     client_tx (Sending), the mutexes (Mutexes), the loop over the driver's frames
--                     (Rounds), the valid states (Validity), any run of calls (Runs), what the two
--                     directions do to one another (Separation), what is stored between the calls
--                     (Stored), the identifiers that are picked (Identifiers) and a small datagram
--                     in either direction (Datagram)
-- What it is linked with:
--   Externs           the C functions declared in src/externs.rs, a parameter of the firewall
--   ExternalFirewall  src/external_firewall.c
--   Glue              src/server_glue.c and its header: the buffers and a TAP device. Glue/Link makes
--                     the firewall's externs of it; Glue/Device, Glue/Receive, Glue/Deaf, Glue/Room
--                     (its buffers) and Glue/Traffic (what the kernel is asked for) are about
--                     it; Glue/Sending, Glue/Transmit, Glue/Arrival, Glue/Listening, Glue/Calls
--                     (any run of calls) and Glue/Filtered (a datagram from end to end) are about
--                     both together
--   MainProgram       src/main.c, on the firewall linked with the glue: its copy loop (Overread), and
--                     the device that it sets up twice (Reopen)
--   Harness           src/test.c, with its own driver; Harness/Script is its main, Harness/Data
--                     and Harness/Fragments the arrays of src/test_data.h
--   Loop              the copy and comparison loops of the two C programs
--   Original          src/firewall.c, which rustwall replaces; Original/Refine and
--                     Original/Receive compare them
-- What all of them use:
--   Base, Slice, Memory, Exec (outcomes; Exec/Keeps for relations between the state before and
--   after, Exec/Safe for invariants, Exec/Inversion), and Smoltcp.
-- Tests holds the theorems at concrete inputs.
--
-- A call of the code is an `Exec`: it gets the whole state and either returns a value, returns an
-- error of smoltcp, in both cases with the state as it was left, or does not return: `panic` for a
-- failed assertion, index or overflow check, `deadlock` for a second lock of a held mutex, `fault`
-- for memory outside its allocation, `exited` for a call of exit, `hang` for a loop that used up its
-- rounds.
--
-- smoltcp is a third-party package and a parameter, the record `Smoltcp`: header fields, parsers,
-- emitters and fragment sets. The laws asked of it stand in `IpLaws`, about the lengths of its
-- buffers in `LengthLaws`, and about its fragment sets, with slots of
-- MAX_REASSEMBLED_FRAGMENT_SIZE bytes, in `SlotLaws`, with `Carries`; Tests/Slots is a set of ten
-- such slots that keeps to them. The external filters (with `Blocks`, that a filter refuses one
-- port, which both of src/external_firewall.c do), the driver (with `KeepsRoom`, that its buffer
-- stays, which that of src/server_glue.c does, and `Settles`, that its frames come to an end) and
-- the operating system (`Os`, with `SelectLaws`, and `Refuses` for a device that is in use) are
-- parameters too. An extern either answers or does not return, which the firewall takes for
-- `exited`; a fault of src/server_glue.c, which its own theorems tell from an exit, counts as
-- that too in Glue/Link.
--
-- Bytes are natural numbers. The length that C passes is an `int`, and `as usize` wraps a negative
-- one around 2 ^ 64. The counter of packet identifiers and the clock keep the overflow checks of a
-- build without optimisation, which is what the Makefile makes. Two loops have fuel. In
-- fragment_large_udp_packet it is a round for every byte, where a round takes MTU_UDP bytes. In
-- client_rx it is an argument, since the end of the loop over EthdriverRxStatus is the driver's
-- decision; Client/Rounds says how much is enough for a driver whose frames come to an end, and
-- Client/Delivery and Original/Receive give it the rounds that their drivers need. The other loops
-- are structural.
--
-- Not modelled: printing (debug_print, println_sel4, printf, perror, pre_init), the locking of the
-- queues and of the fragment sets, which guards each call as a whole, and the build files. What is
-- left of the C files beside is declarations, includes and code that is commented out.
pub mod Base
pub mod Exec
pub mod Constants
pub mod Smoltcp
pub mod Externs
pub mod State
pub mod Buffer
pub mod Slice
pub mod Fragment
pub mod ExternalFirewall
pub mod Udp
pub mod Reassembly
pub mod Ipv4
pub mod Ethernet
pub mod Client
pub mod Memory
pub mod Original
pub mod Glue
pub mod Loop
pub mod MainProgram
pub mod Harness
pub mod Tests
