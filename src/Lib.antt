-- ===== src/Lib.antt =====
-- rawcon sends datagrams inside segments that look like a TCP connection, and can disguise that
-- connection as HTTP or TLS. This library models its segments, its TLS hello messages, its two
-- kinds of connection and their helpers, as they are on Linux, those for other systems, and those
-- for macOS. The parts of the program and the files that model them:
--
-- Tcp: raw_linux.go, tcpLayer and tcpOption with their constants and flag tests. Tcp/Decode is
-- decodeTCPlayer and getMssFromTcpLayer, Tcp/Marshal is tcpLayer.marshal, Tcp/Checksum is csum.
-- marshal calls csum; the connections call marshal for each packet they send, and decodeTCPlayer
-- for each one they receive.
--
-- Tls: utils/tls.go. Tls/ClientHello and Tls/ServerHello are the two messages, with Unmarshal and
-- Marshal below them; Tls/Writer is the slice that the Marshal methods fill from the front;
-- Tls/Records is ParseTLSClientHelloMsg and ParseTLSServerHelloMsg, and Tls/Records/Generate is
-- GenTLSServerHello and GenTLSClientHello.
--
-- Conn: pktLayers, connInfo (raw_linux.go) and Raw (utils.go). Conn/Send is updateTCP,
-- sendPacketWithLayer, writeWithLayer and the functions that send one kind of packet, with their
-- packets as a receiver reads them below it; Conn/Frame is the header of a TLS record; Conn/Http
-- is buildHTTPRequest and buildHTTPResponse (utils.go).
--
-- Listener: RAWListener (raw_linux.go). Listener/Step is one round of the loop of doRead for one
-- packet that ReadTCPLayer hands on, and Listener/DoRead the round with that call; it uses the TLS
-- parser and generator, the HTTP answer and Conn/Send. Listener/Write is WriteTo and GetMSSByAddr.
-- Listener/Peer says which moves one peer may make, Listener/Invariant that a round makes one of
-- them, Listener/Runs what any number of rounds is, and Listener/Delivery is about the data that a
-- round hands on.
--
-- Client: RAWConn (raw_linux.go) with Write, ReadTCPLayer and ReadFrom; Client/Dial is the two
-- loops of DialRAW, which send SYN until it is answered and then the request until it is answered,
-- and Client/Request the request itself and DialRAW around the two. Client/Whole is about the
-- packets that the buffer of a read holds. Client/Ends, Client/Dial/Ends and
-- Client/Dial/RequestEnds are about the end of the loops.
--
-- Link: a RAWConn and a RAWListener together, where the packets of one are those that the other
-- reads; Link/Handshake and the files below it are about the three packets of the handshake, and
-- Link/Disguise and those below it about the request and the response after them, and Link/Stream
-- about any number of Writes.
--
-- Pcap: raw_other.go, the version for other systems, over gopacket and pcap: its pktLayers and
-- connInfo and the functions that send one kind of packet. Pcap/Listener is one round of the loop
-- of RAWListener.ReadFrom, with closeConnByAddr, and WriteTo; Pcap/Listener/Kept and
-- Pcap/Listener/Rounds are about what a round leaves as it was, and Pcap/Listener/Runs about any
-- number of rounds. Pcap/Listener/Spec is what a caller may count on, with no more state than the
-- status of each address; Pcap/Listener/Peer, Pcap/Listener/Moves and Pcap/Listener/Refines are
-- about how a round keeps to it. Pcap/Client is RAWConn with readLayers, Write and ReadFrom and
-- the first loop of DialRAW, and Pcap/Client/Dial the second loop and the two one after the other;
-- Pcap/Client/Ends and Pcap/Client/DialEnds are about the end of the loops, and Pcap/Client/Stray
-- about a packet out of turn.
--
-- Darwin: raw_darwin.go, the version for macOS. Darwin/Listener is one round of the loop of
-- RAWListener.ReadFrom, which uses the definitions of Pcap/Listener where the two files agree
-- statement for statement; Darwin/Listener/Refines and Darwin/Listener/Records are about its
-- rounds. Darwin/Client is RAWConn with readLayers, Write, WriteTo and ReadFrom, and
-- Darwin/Client/Dial the two loops of DialRAW; Darwin/Client/Ends is about their end, and
-- Darwin/Client/Reading about readLayers.
--
-- Utils: utils/. Utils/Async is AsyncRunner (async.go), as steps of its goroutines, and
-- Utils/Pools is GetBuf, PutBuf and CopyBuffer with what the pools hold. Utils/Buf is getIndex
-- (buf.go), the size class of a pooled buffer; of utils.go, Utils/Cleaner is ExitCleaner,
-- Utils/Die is Die, Utils/Expires is Expires, Utils/Domains is DomainRoot, and Utils/Pipe is the
-- two loops of PipeUDPOverTCP where no read or write fails.
--
-- How state is modelled: a function that changes the object it is called on returns it; a byte
-- slice is a list of numbers, and a fixed-width integer a native number that is cut down where the
-- source converts it. A call ends in a value, an error, or a panic of an index or slice out of
-- range (Common/Go). The socket is the list of packets sent and the faults to come, and the maps
-- newcons and conns are functions from addresses. What a round draws from outside (random numbers
-- and bytes, the clock, the address of the route to a peer) is its argument. trySendAck does
-- nothing in the source, so it has no definition.
--
-- Fuel: the loop over a packet's options and the loops of the two Unmarshal methods take the
-- number of bytes left as fuel, and each round uses up at least one byte. The loop that folds the
-- carries of a checksum recurses on the order of the numbers, since each round makes the sum
-- smaller. The loops of ReadFrom and of the request in DialRAW have one round more than there are
-- packets, since a round that does not end them takes one, and the loop of SYN has seven in both
-- versions, since its counter stops it there. The second loop of Utils/Pipe has one more than
-- there are bytes in the stream. Running out of fuel is an outcome of its own, stuck, which no
-- theorem counts as a return.
--
-- Packets that come in are a list of what ReadFromIP returns, a temporary error among them being a
-- deadline that has passed, or of what the sniffer gives on macOS; at the end of the list a read
-- waits. ReadFromIP has a buffer of 2048 bytes, 20 of which hold the IPv4 header, and cuts off
-- what follows the others. Which buffer a pool of Utils/Pools hands out or drops, and the order of
-- the steps of Utils/Async, are arguments. A step of Utils/Die is what one caller does under the
-- lock or after it.
--
-- Not modelled: opening sockets and the iptables commands of ListenRAW and DialRAW, the values of
-- the deadlines, the filter programs, which the kernel runs, and dialRAWDummy (raw_other.go and
-- raw_darwin.go), which lets the system make the connection. gopacket, which writes and reads the
-- bytes there, is not modelled either: Pcap keeps the layers that it is given and gives, and an
-- address that the source keeps from a packet is a value of its own, not a part of the buffer of
-- the capture. Nor are, of utils.go, the locks, the conversions between slices and strings, the
-- splitting of addresses, and the deadlines and goroutines of PipeUDPOverTCP.
pub mod Common
pub mod Tcp
pub mod Tls
pub mod Conn
pub mod Listener
pub mod Client
pub mod Link
pub mod Pcap
pub mod Darwin
pub mod Utils
