-- ===== src/Lib.antt =====
-- mistlink: a peer-to-peer relay of live video. A client takes H.264 and Opus from OBS (over WHIP) or
-- from an RTP socket, passes them on to other peers over WebRTC, and offers what it receives as an
-- RTSP stream on its own machine. The program is Go; the model is of the packages below internal/,
-- and of cmd/mistlink.
--
-- How the parts interact. A remote track's packets run through the track broadcaster
-- (internal/stream), which asks for lost packets, remembers the parameter sets, hands packets to
-- the local tracks of the peers behind it and to the bridge (internal/receiver). The bridge lets
-- the packets of one video and one audio track through, starts the RTSP stream when both H.264
-- parameter sets are known, and queues packets for its sender loop. The loop puts them into the
-- reordering buffer, which hands them to the RTSP server (internal/rtsp) as one gapless stream for
-- each kind. The server turns Opus into AAC where this is configured. Packets also come from a
-- local socket, and a relay for each peer passes on what the bridge lets through. The signaling
-- client (internal/signaling) carries offers, answers, candidates, requests and redirects between
-- peers, and the callbacks of internal/sender act on them through the stream manager
-- (internal/stream).
--
-- Files and code:
--   Base: lists, maps, machine words, bits and texts that the parts share.
--   RtpUtils: internal/rtp_utils/nal.go, and the fields of an RTP packet that the program uses.
--   StapA: the walk over the units of an aggregation packet, which three files contain: idr_loop is
--     that of ProcessVideoPacket, first_loop that of ExtractSPSPPS, last_loop that of extractSPSPPS.
--   Receiver/Stats, Receiver/Nack: trackStats of internal/receiver/stats.go, and SendNACK of
--     internal/receiver/rtp_handler.go.
--   Receiver/VideoPacket: ProcessVideoPacket, and ExtractSPSPPS of internal/receiver/sps_pps.go.
--   Receiver/RtspBuffer: RTSPBuffer of internal/receiver/rtsp_buffer.go. NewRTSPBuffer is
--     new_rtsp_buffer, Add is add, Cleanup is cleanup, Flush is flush; flushBufferSet is collect up to
--     its Unlock, with the loop flush_loop, and then send_all, all in Receiver/RtspBuffer/Flushing. The
--     other children are about the lanes
--     (Invariant, Lanes), the loop (Flush, Delivery, Waiting, Progress), whole histories of calls
--     (History, Numbering) and the pool of payloads (Pool).
--   Receiver/Bridge: RTPBridge of internal/receiver/bridge.go and sps_pps.go, Receiver/Bridge/Packets
--     that of rtp_sender.go. Receiver/Bridge/Sections cuts the goroutines of a bridge and of its server
--     at their locks: TrackStopped is three sections, WriteRTP two, a flush one for each packet and
--     more. Interleaving has what holds in any order of them.
--   Receiver/TrackLoop: HandleTrack of internal/receiver/rtp_handler.go, handle_track here.
--   Receiver/Sdp: ExtractSPSPPSFromSDP of internal/receiver/sdp.go.
--   Rtsp/Server, Rtsp/Ports: Server of internal/rtsp/server.go, with dummyPacketLoop and
--     WritePacketRTP in Rtsp/Server/Writing, and the search for free ports in StartServer. Rtsp/Aac: internal/rtsp/aac_processor.go and internal/rtp_utils/opus_to_aac.go.
--   Signaling: internal/signaling. Queue is about sendChan, Routing about the dispatch of readLoop.
--     Signaling/Connection has a client with its websocket, from NewClient on: pump is a turn of
--     writePump, read one of readLoop, and both end at an error.
--   Stream/Broadcaster, Stream/Manager: TrackBroadcaster and StreamManager of internal/stream;
--     round is the body of the loop of a broadcaster's run, and Stream/Broadcaster/Running has the
--     goroutine from Start to its return, while receivers join and leave.
--   Sender/Connection, Sender/Candidates: the connection, redirect, candidate and answer callbacks of
--     internal/sender/callbacks.go. In Sender/Candidates a callback is several steps, which may
--     interleave with those of others; Counts and Stranded are about them.
--   Sender/Mpegts, Sender/Relay: HandleMPEGTSStream of internal/sender/mpegts_to_rtp.go, and
--     HandleRelayStream of internal/sender/relay_stream.go, which is Sender/Relay/Shared: its channel
--     holds pointers, and a packet may be read into an address that still waits. The relay of packets
--     by value in Sender/Relay is what it is compared with.
--   Sender/Peers: HandleOfferAsReceiver of internal/sender/handler.go, CreatePeerConnection of
--     peer_connection.go, the methods of PeerConnectionConfigurer in pc_factory.go, and CreateAndSendOffer of internal/webrtc_utils. Sender/Peers/Events has what a
--     signaling message or a change of state makes of a client, with the offer and disconnect
--     callbacks. The laws that a predicate needs for every event to keep it are the record Keeps of
--     Sender/Peers/Preservation, which Histories fills for the relays and Others for other peers.
--   Sender/Configurer: the callbacks of Configure in pc_factory.go for tracks and candidates, with the
--     sources that a relay ignores, and internal/webrtc_utils/rtcp.go.
--   Sender/Whip, Sender/Run: internal/sender/whip_server.go and run.go. The loop over the ports of the
--     WHIP server and that of the RTP socket are both listen_loop.
--   Config, Config/Startup: internal/config/config.go, and cmd/mistlink/main.go and utils.go.
--   Logger: internal/logger/logger.go, from its first initialisation to where each record goes.
--   The modules Tests hold runs on concrete inputs.
--
-- Conventions. Numbers are natural numbers; uint16 and uint32 sums and differences have their
-- wrap-around written out (Base/Words), and int counters are unbounded. A mutex makes what it guards
-- one step. Peers, tracks, handlers and listeners are numbers, mime types and client ids are lists of
-- byte codes. Times are in nanoseconds and each reading of the clock is an argument. The ages that
-- the code takes by time.Since count as 0 where the clock reads less.
--
-- In Sender/Peers a handler is one step although its goroutine may be interrupted between two calls of
-- the manager, and what the WebRTC library and the signaling client answer in a handler is one record.
--
-- Bounds and fuel. flush_loop runs on 1001 rounds: a batch has at most 500 packets, and after a
-- jump to the oldest packet the next round sends it. port_loop runs on 101 rounds, one for each
-- port from the first to the last that is allowed. listen runs on one round for each port from the
-- first on and one beyond the last. The walks over aggregation packets run on the length of the
-- payload, as each unit takes two bytes at least; pack runs on the length of its list.
--
-- Not modelled: pion, gortsplib, the websocket, the file system and libopus/fdk-aac, whose answers
-- are parameters; the files and encodings of the log; OnNegotiationNeeded, which only logs; printing.
pub mod Base
pub mod RtpUtils
pub mod StapA
pub mod Rtsp
pub mod Receiver
pub mod Signaling
pub mod Stream
pub mod Sender
pub mod Config
pub mod Logger
