-- ===== src/Lib.antt =====
-- go-mihome: a Go client for the devices of Xiaomi's home platform.
--
-- The library talks to devices in three ways: directly over the local network (lan_types.go, lan.go),
-- through a gateway or the cloud over MQTT (mqtt.go, mips_types.go, mips_client.go, common.go), and over HTTP.
-- client.go joins the three: it keeps a table of the devices with what each way knows of them, sends reads,
-- writes and actions by one of the ways, and binds the subscriptions to the one that pushes. Its
-- camera package has a transport and an encryption of its own (camera/native_cs2.go,
-- camera/native_miss.go, camera/native_crypto.go), and keeps the latest picture of each camera
-- (camera/stream_manager.go). network.go watches the interfaces, storage.go keeps
-- payloads and the user's configuration. The LAN client switches itself off while a gateway is present,
-- and asks the network monitor which interfaces to scan.
--
-- Where the parts are modelled:
-- - Common: Boolean tests, slices and lists, errors (errors.go, const.go), bytes and the reads and writes
--   of encoding/binary, decimal and hexadecimal numbers of strconv and encoding/hex, maps, and the block
--   modes of crypto/cipher over a block cipher that is a parameter.
-- - Lan.Padding, Lan.Packet: lan_types.go. pkcs7Pad and pkcs7Unpad are pkcs7_pad and pkcs7_unpad,
--   buildPacketMessage and ParsePacket are build_packet_message and parse_packet. MD5, AES and JSON are the
--   record Primitives.
-- - Lan.Probe: didFromLANPacket, buildLANBroadcastProbePacket and parseLANProbePacket of lan.go.
-- - Lan.Runtime: the configuration of the probing (Config), what a probe's result does to a device
--   (Device: recordPingSuccess, recordPingFailure, markAllDevicesOffline for one device), the scan of the
--   interfaces (Broadcast: broadcastTargetsLocked), and repeated messages (Uplink: recordRecentUplink).
-- - Lan.Client: the registry and the switching of LAN control (VoteForLANControl,
--   setCentralGatewayPresent, Start, Close, Ping), with the parts of the first two before and after the
--   release of the lock (cast_vote, note_gateway, switch_runtime).
-- - Lan.Dispatch: the subscribers of properties and events, dispatchProperty, dispatchEvent and
--   hasPushSubscriberLocked.
-- - Lan.Scan: scanDevices and broadcastScan, and the rounds of the scanning goroutine.
-- - Lan.Session: handlePacket and handleRuntimePacket with their replies (replyToUplink), GetProp, SetProp and
--   InvokeAction over call (Calls), and the push subscription of a device (Push: subscribeDevice,
--   unsubscribeDevice, syncDeviceSubscription, SetSubscribeOption).
-- - Miot: client.go. Entry is the entry of a device (recomputeEntryLocked, mergeDeviceInfo); Refresh and Local
--   are the updates of the table (RefreshCloudDevices, RefreshCloudDevicesByDID, updateGatewayDevices,
--   updateLANDevices, handleCloudDeviceState), which Update puts into sequences; Subs has the subscriptions and
--   handleChanges; Route has GetProperty, SetProperty and InvokeAction; Queue the properties to be read again
--   (RequestRefreshProperty, handleQueuedPropertyRefresh).
-- - Cloud: cloud.go. Pages is GetDevicesByDID, Homes the homes of an account (normalizeHomeInfos,
--   mergeHomeExtras), Base what GetDevices asks for and lists (buildHomeDeviceBase, baseDeviceByDID).
-- - Mqtt: mqtt.go. Config has the defaults and normalizeBrokerURL, Conn the methods of PahoMQTTConn, Conn.Session
--   what the broker has subscribed.
-- - Mips.Message: Pack and UnpackMIPSMessage. Mips.Client: Request, handleReply and the other methods of
--   baseMIPSClient, a waiting request being a ticket. Mips.Topic: MatchMQTTTopic.
-- - Network: Refresh, UpdateTargets and the subscriptions of NetworkMonitor.
-- - Storage: writeHashed, readHashed, LoadUserConfig, UpdateUserConfig, and the merge and the filter.
-- - Camera.Channel: Push, PushSeq and Pop of a data channel. Camera.Command: the worker of the connection,
--   commands, and the TCP frames. Camera.Payload: the encryption of payloads, media requests and packets.
--   Camera.Command.Runs has the connection from its start on.
--   Camera.Snapshot: the worker of a camera (GetSnapshot, ensureStarted, restartPipeline, onJPEG) and
--   ensureWorker.
-- - Tests: concrete inputs on which the theorems are applied.
--
-- Representation. A Go string or slice of bytes is a list of native numbers, a map an association list in
-- which a key is found by its first entry, a Go channel with a buffer the list of what it holds. Integers
-- are native numbers; where the source's type wraps, the model writes the remainder. Times and durations
-- are numbers of nanoseconds, 0 being the zero time. What the network, the clock, the file system and other
-- packages return is an argument. A panic is an outcome of its own.
--
-- Fuel. The loop of UnpackMIPSMessage has one round for each byte, since a field takes five; that of Push
-- one round more than there are bytes, since a round that goes on takes one; that of PushSeq one more than
-- there are packets kept. A run that is out of fuel has the result none, which no other run has. The timer of
-- the properties to be read again fires as often as a bound allows, three times for each query and as often as
-- retries are left. GetSnapshot has two rounds in the source. The pages of GetDevicesByDID take as much
-- fuel as the server has pages, a bound that the hypotheses on the server name.
--
-- Interleavings. The methods of the LAN client run to their end one after the other in Lan.Client.Control, those
-- too that release the lock on the way (Start, Close, VoteForLANControl, setCentralGatewayPresent) or wait for a
-- device (Ping, HandlePacket, the calls of a device); Lan.Client.Overlap cuts a vote and Start at the release of the lock.
-- A MIPS request is a step up to its publication, and its reply another. A method of PahoMQTTConn is a step up to
-- the release of its lock, and each request to the broker another one, so that requests can be overtaken;
-- Connect is two steps, with one of its own for a URL that is not parsed. In Mqtt.Conn.Session a method is served before
-- the next one starts, and the broker may accept a request, refuse it, or carry it out and lose the answer; what
-- resubscribeAll is refused and what a session has from before is given from outside. An update of the table of
-- devices is one step with the calls that follow it, and so is a method of a LAN session that waits for a device.
-- The home of a device in more than one home is the first in the order of the tables, where Go walks its maps in
-- any order. Trimming of text knows the white space of ASCII only.
--
-- Not modelled: sockets, HTTP, mDNS, the paho library, certificates, goroutine schedules below the
-- level of locked methods, the rest of the cloud client (cloud.go: shared devices, scenes, batches,
-- HTTP), start, close, timers and network handlers of the runtime client (client.go), the typed MIPS
-- clients (mips_cloud.go, mips_local.go), specifications and entities (spec_parser.go,
-- entity_mapper.go), and the sessions and the native pipeline of the cameras (camera/session.go,
-- camera/native_pipeline.go).
pub mod Common
pub mod Lan
pub mod Mips
pub mod Camera
pub mod Network
pub mod Storage
pub mod Cloud
pub mod Miot
pub mod Mqtt
mod Tests
