-- ===== src/Lib.antt =====
-- ngntun, a tunnel over the calls of a Japanese NGN line: a model of its core in Go, and what is
-- proved of it.
--
-- The program reads the DHCP leases of the line (internal/lease), registers at the home gateway and
-- places or takes a call by SIP (internal/sip) with a session description (internal/sdp), sets up a
-- tun device and its routes (internal/netcfg), and copies packets between tun and the media socket
-- of the call (internal/media) until the call ends.
--
-- Which file models which part:
--   Media: internal/media/media.go. Media/Stats has the statistics and their counting, and
--     Media/Forwarder the forwarder: accept_source is acceptSource, send_packet and deliver_packet
--     are the bodies of tunToNetwork and networkToTun behind the read, step is one round of either,
--     and run is a sequence of rounds of both in the order in which they take effect.
--     Media/Running is Run, with the two loops as goroutines.
--   Sdp: internal/sdp/sdp.go. marshal is Offer.Marshal, parse_answer is ParseAnswer with one
--     function for each case of its switch; Sdp/Lines is about one line.
--   Sip/Header, Sip/Param, Sip/Message, Sip/Message/Parse: internal/sip/message.go. Sip/Message/Lines
--     and Sip/Message/HeaderLines are about what Marshal writes and ParseMessage reads.
--   Sip/Transaction: internal/sip/transaction.go. A buffered channel is the list of what it holds.
--     retransmit is one round of retransmitLoop, and schedule the times at which it sends.
--     Sip/Request: begin, wait and close over the table of the user agent.
--   Sip/Response: respond and responseTo of internal/sip/ua.go.
--   Sip/Dialog: internal/sip/dialog.go. A channel that is closed once is a flag.
--   Sip/Outgoing: register, Invite, maybePrack and ackFailure of internal/sip/ua.go up to the send,
--     and what register makes of the answer, with its errors in Sip/Failure. Sip/Invite: the end of
--     Invite, newDialogUAC, and Accept and Reject of internal/sip/dialog.go. Sip/Expires: the
--     lifetimes that are read.
--   Sip/Ua: handle and what it calls, of internal/sip/ua.go, with handleIncomingInvite of
--     internal/sip/dialog.go. A map is a list of pairs.
--   Sip/System: the user agent with its requests and its dialogs as a relation (Step), of which the
--     goroutines of the program make a sequence. Sip/Start: New and Close of internal/sip/ua.go with
--     the calls for their sockets, and Serve and Send of internal/sip/transport.go. Sip/Wire is
--     about messages that go from one side to the other. Sip/Operations: Register, Unregister, Invite
--     and Bye from the begin of their transaction to its close, with hangup, unregister and
--     refreshRegistration of internal/session/session.go; what happens while they wait is an
--     argument (Waiting).
--   Socket: internal/sockopt, NewTransport of internal/sip/transport.go and Dial of
--     internal/media/media.go. The calls that are made for a socket are a list.
--   Tundev: Create of internal/tundev/tun_linux.go.
--   Lease/Dns, Lease/Hexish, Lease/Vendor, Lease/Provisioning, Lease/Load: internal/lease/lease.go.
--   Netcfg: internal/netcfg/netcfg_linux.go. An undo step is the call that it makes.
--   Session/Lifecycle: Run of internal/session/session.go as the sequence of its calls (Action), for
--     every case of what they return (World). Session/Lifecycle/Held says what each call needs, and
--     Session/Lifecycle/Balance puts the goroutine of the forwarder beside them.
--   Session/Admission: waitForCall, placeCall and allowed. Session/Supervise: supervise, one wake of
--     its select at a time. Session/Command and Session/Runner: internal/session/command.go, the
--     first about texts and codes, the second about the process.
--   Cli: cmd/ngntun/main.go. Cli/Options has the options and their defaults, Cli/Values reads
--     values, Cli/Source selects the own addresses, Cli/Config is buildConfig, Cli/Exit has the
--     exit codes, Cli/Report texts of the dry run. Cli/Main is run, for what a session returns.
--   Base, Text, Netip: what the program uses of the language and of Go's strings, strconv and
--     net/netip. Tests has concrete runs.
--
-- Text is a list of bytes. The functions of Go's packages strings and unicode are written for ASCII:
-- letters and blanks outside ASCII are bytes like any other. An int that the program only sets to
-- numbers that are not negative is a natural number; one that is read from text is an integer.
-- A uint64 counter and the CSeq number wrap around. Times are natural numbers; a lifetime that is
-- read from a header is an int64 of nanoseconds that wraps around, and so is a bandwidth.
-- Addresses that a search goes through are not IPv4-mapped, since the code unmaps them first.
--
-- Fuel: the decoders of vendor options and of domain names get one round more than there are bytes,
-- and each round takes at least one byte. The loop that sends a request again gets 64 rounds; it
-- waits at least 500 ms in each and ends at 32 s.
--
-- Parameters: netip.ParseAddr, netip.ParsePrefix and the String methods (NetipText), and netlink
-- (Netlink), the interfaces of the host (Cli.Source.Host), the lease files and their JSON
-- (Lease.Load.Files), and what the calls of Run return (Session.Lifecycle.World) or those of a
-- socket (Socket.Answers, Tundev.Answers, Sip.Start.Read). What a proof needs of them is a
-- hypothesis: an address that is sent is printed as one word that is read back
-- (Sdp.RoundTrip.IsSendable), and a call of netlink is undone by its opposite,
-- but for the addresses that Linux may drop when a link is set down (Netcfg.Rollback.Laws). A dialog
-- that a goroutine holds is known by its Call-ID and its own tag, which is a new token for each one;
-- that another dialog takes its place in the table while it goes on is not modelled. Tokens of
-- crypto/rand are arguments.
--
-- Not modelled: system calls themselves, processes, flags, logging and printing; rate, which
-- computes with floats; the interleaving of the goroutines of a session, but for the files that
-- the forwarder closes. That the wakes of supervise are possible, a timer not firing before its
-- time, is a hypothesis there (Feasible).
pub mod Base
pub mod Text
pub mod Netip
pub mod Socket
pub mod Tundev
pub mod Media
pub mod Sdp
pub mod Sip
pub mod Lease
pub mod Netcfg
pub mod Session
pub mod Cli
pub mod Tests
