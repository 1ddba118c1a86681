-- ===== src/Lib.antt =====
-- Verification of cfdp-py: the two file transfer handlers of the CCSDS File Delivery Protocol.
--
-- The library has a source handler, which sends a file or metadata for a put request, and a
-- destination handler, which receives it. Each is a state machine that its user calls with at most
-- one packet, and that queues packets which the user takes and sends. The handlers call the user
-- (indications and fault callbacks), the user's virtual filestore, and timers; they read the
-- management information base.
--
-- Parts and files:
--   Tracker      LostSegmentTracker of src/cfdppy/handler/dest.py: the dictionary of lost segments;
--                Tracker/Cover is its abstract view, the set of offsets, and Tracker/Add, Coalesce
--                and Remove are about the methods of those names
--   Dest         DestHandler of src/cfdppy/handler/dest.py: State (the records), Faults (declared
--                faults, reset, checksum test, completion), Segments (lost segments and NAK
--                sequences), Receive (file data, EOF, check limit), Start (first packets, metadata),
--                Machine (state_machine, cancel_request, get_next_packet, the steps), Calls (a
--                sequence of calls), Inactive (acknowledge_inactive_eof_pdu), Properties (getters and
--                setters); Queue, Guards, Insertion, Checksum, Mismatch, Orphans, Leftovers,
--                Retries, Reception, Losses, Missing, Naks, Deferred and Delivery hold theorems:
--                Guards is about packets left to send, Insertion about the packets that the handler
--                takes, Mismatch about an EOF packet with another checksum than the file, Missing
--                about the lost segments while file data arrives, Naks and Deferred about the
--                requests for them, and Delivery about a whole unacknowledged transfer
--   Source       SourceHandler of src/cfdppy/handler/source.py: State, Packets (metadata, file data,
--                EOF), Faults, Send (file data, retransmission, waiting), Begin (put_request, start
--                of a transaction), Machine, Calls, Properties; OnNative is a handler on the native
--                filestore; Queue, Insertion, Chunks, Transfer, Requests, Sending, Answers and
--                Retries hold theorems: Insertion is about the packets that the handler takes,
--                Sending about a put request up to the idle handler in unacknowledged mode, Answers
--                about NAK packets, and Retries about the EOF packets sent again
--   Copy         a file from the source handler to the destination handler; Whole is about a whole put
--                request
--   Mib          src/cfdppy/mib.py: the fault handler table, configurations, remote entities
--   Routing      get_packet_destination of src/cfdppy/handler/common.py
--   User         src/cfdppy/user.py: the indications, and the interfaces of filestore and timers
--   Filestore    NativeFilestore of src/cfdppy/filestore.py on a tree of files; Check is its
--                calculate_checksum and verify_checksum, Listing its list_directory, Native makes
--                it a filestore of the handlers, Interface is the abstract class
--                VirtualFilestore, Files and Create are about reading, writing and creating files
--   Restricted   RestrictedFilestore of src/cfdppy/restricted_filestore.py: its paths; Operations are
--                its methods, Confined and Calls are about what they leave alone
--   Crc          calc_modular_checksum of src/cfdppy/crc.py
--   Request      src/cfdppy/request.py
--   Errors       src/cfdppy/exceptions.py, and the exceptions of Python that occur
--   FilePath     what is used of pathlib, on texts as lists of code points;
--                Equal decides equality
--   Protocol     the data of the packet library spacepackets, as far as the sources name it
--   Proc         methods as procedures: state in, outcome and state out, the state being kept where
--                an exception is raised; Holds, Agree, Steps and Judged are rules about them
--   Base         shared names, Boolean tests, lists, signed integers, dictionaries
--   Examples     a small entity, on which every result with a hypothesis is applied
--
-- A handler's state record has the fields of the handler object and of its wrappers, and also the
-- store of the filestore, the indications so far and the time. A method is a procedure of the same
-- name; a part of a method has a name of its own where it is a branch or a loop.
--
-- Python integers are natural numbers, except the number of packets ready, which may go below zero.
-- The AckedModeParams of the destination handler share one tracker object, the default of a class
-- field, so the tracker is a field of the handler's state that a new _DestFieldWrapper leaves alone.
--
-- Bounds: `state_machine` of the destination handler calls itself at the positive acknowledgement
-- limit, and `depth` is the number of nested calls that the interpreter allows; the loop that
-- answers a segment request has as many rounds as bytes are requested, which is enough where a
-- segment has at least one byte, and so has the loop of a CRC as many as bytes are to be verified.
-- The loops of a user, `transmit` and `run_until_idle`, have a bound on their rounds that the
-- theorems compare with the size of the file.
--
-- Parameters: the filestore, the timers (countdowns read at the time of the call, one reading of the
-- clock per call), the sequence numbers, the configuration of an empty packet, the equality of
-- transactions, the two size computations of the packet library, and its equality of entity IDs
-- with integers; the CRC calculator of crcmod, the null checksum, the size of a directory, and
-- the program of the host that list_directory runs.
--
-- Not modelled: logs, texts of exceptions, serialisation of packets, objects shared between a
-- packet in the queue and the handler after the packet was queued, a user's callback that raises,
-- files that a process may not access, links, and two names of one file such as a relative and an
-- absolute path. A ".." part of a path is kept as the source keeps it, and is an ordinary name in
-- the tree of files: a host resolves it, and that is not modelled.
pub mod Base
pub mod Tracker
pub mod FilePath
pub mod Protocol
pub mod Errors
pub mod Proc
pub mod Mib
pub mod User
pub mod Routing
pub mod Dest
pub mod Copy
pub mod Request
pub mod Source
pub mod Crc
pub mod Filestore
pub mod Restricted
pub mod Examples
